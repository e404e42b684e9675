-- ===== src/Early/Broadcasts.antt =====
-- What the process of odr.c sends in the course of its loop.
use mathlib.Core.List.{append-nil, append_assoc, map-map}
use odr.Prelude.{
  ℕ, zero, suc, ◌≡◌, refl, sym, ap, ◌∙◌, Bool, true, false, List, [], ◌∷◌, ◌++◌, map, Option, none,
  some, arith, if◌then◌else◌, Bool-cases, inl, inr,
}
use odr.Prelude.Int.{ℤ, pos}
use odr.Hwaddrs.{Ifreq, HwaInfo, is_routed, get_hw_addrs, get_hw_addrs_or_quit}
use odr.Hwaddrs.Interfaces.{routed}
use odr.Early.Odr.{
  System, IfInfo, Frame, Process, Recv, recv_error, received, Round, Progress, running, err,
  broadcast_frame, broadcast_each, broadcast_ll_msg, if_info_of, fill_if_info_list,
  bind_if_to_socket, on_frame, on_datagram, loop, start,
}

-- Frames in the order in which they go out, put on a list that holds the newest first.
abbrev pub push : List Frame → List Frame → List Frame
push [] s = s
push (f ∷ fs) s = push fs (f ∷ s)

-- The same frames, a number of times.
abbrev pub again : ℕ → List Frame → List Frame → List Frame
again zero fs s = s
again (suc k) fs s = again k fs (push fs s)

-- The messages of clients before the first error, and whether there is one.
abbrev pub requests : List Round → ℕ
requests [] = 0
requests (r ∷ rs) = elim r.datagram [
  | none ↦ requests rs
  | some d ↦ elim d [ recv_error ↦ 0 | received msg ↦ suc (requests rs) ]
]

abbrev pub fails : List Round → Bool
fails [] = false
fails (r ∷ rs) = elim r.datagram [
  | none ↦ fails rs
  | some d ↦ elim d [ recv_error ↦ true | received msg ↦ fails rs ]
]

-- A message for each interface in use, in order.
abbrev pub frames_of : System → List HwaInfo → List Frame
frames_of y hs = map (λ h. broadcast_frame y (if_info_of y h)) (routed hs)

module _ (y : System) where
  broadcast_each-frames :
      (fs : List IfInfo) (r : ℤ) (s : List Frame)
      → (broadcast_each y fs (r, s)).1 ≡ push (map (broadcast_frame y) fs) s
  unfolding broadcast_each
  broadcast_each-frames [] r s = refl
  broadcast_each-frames (f ∷ fs) r s = broadcast_each-frames fs _ _

  broadcast-push :
      (fs : List IfInfo) (s : List Frame)
      → (broadcast_ll_msg y fs s).1 ≡ push (map (broadcast_frame y) fs) s
  unfolding broadcast_ll_msg
  broadcast-push fs s = broadcast_each-frames fs (pos 0) s

  -- How the loop ends, and with which frames.
  abbrev Ends : List Round → Process → Progress → Type 0
  Ends rs n o =
      (m : Process) × (o ≡ (if fails rs then err m else running m))
      × (m.sent ≡ again (requests rs) (map (broadcast_frame y) n.if_info_list) n.sent)

  -- A frame changes neither the interfaces nor what was sent.
  framed :
      (f : Option Recv) (n : Process)
      → ((on_frame y f n).if_info_list ≡ n.if_info_list) × ((on_frame y f n).sent ≡ n.sent)
  unfolding on_frame
  framed none n = (refl, refl)
  framed (some recv_error) n = (refl, refl)
  framed (some (received payload)) n = (refl, refl)

  -- One round, after its frame.
  after_frame :
      (f d : Option Recv) (rs : List Round) (n m : Process)
      → m.if_info_list ≡ n.if_info_list
      → m.sent ≡ n.sent
      → ((k : Process) → Ends rs k (loop y rs k))
      → Ends
          (record { frame = f; datagram = d } ∷ rs)
          n
          (elim (on_datagram y d m) [ running k ↦ loop y rs k | err k ↦ err k ])
  unfolding on_datagram
  after_frame f none rs n m a b rest = let (k, e, sent) = rest m in (k, e, sent ∙ rw (a, b) refl)
  after_frame f (some recv_error) rs n m a b rest = (m, refl, b)
  after_frame f (some (received msg)) rs n m a b rest =
      let next = record m { sent = (broadcast_ll_msg y m.if_info_list m.sent).1 } in
      let (k, e, sent) = rest next in
      (k, e, sent ∙ rw (broadcast-push m.if_info_list m.sent, a, b) refl)

  loop-sent : (rs : List Round) (n : Process) → Ends rs n (loop y rs n)
  unfolding loop
  loop-sent [] n = (n, refl, refl)
  loop-sent (r ∷ rs) n =
      let (a, b) = framed r.frame n in
      after_frame r.frame r.datagram rs n (on_frame y r.frame n) a b (loop-sent rs)

  -- The frames depend on the address and the index of an interface only.
  bound-frames :
      (fd : ℤ) (l : List IfInfo)
      → map (broadcast_frame y) (bind_if_to_socket y fd l) ≡ map (broadcast_frame y) l
  unfolding bind_if_to_socket broadcast_frame
  bound-frames fd [] = refl
  bound-frames fd (f ∷ l) = ap (◌∷◌ (broadcast_frame y f)) (bound-frames fd l)

  abbrev unset : List ℕ
  unset = 0 ∷ 0 ∷ 0 ∷ 0 ∷ []

  started :
      (items : List Ifreq) (buffer : List ℕ) (n : Process)
      → start y items buffer ≡ some n
      → (n.if_info_list
          ≡ bind_if_to_socket y (pos 0) (fill_if_info_list y (get_hw_addrs items) ([], unset)).0)
        × (n.sent ≡ [])
  unfolding start get_hw_addrs_or_quit
  started [] buffer n h = cc
  started (item ∷ items) buffer n h = ground arith

  module _ (last : (i : IfInfo) (is : List IfInfo) → y.list_add i is ≡ is ++ i ∷ []) where
    filled :
        (hs : List HwaInfo) (l : List IfInfo) (name : List ℕ)
        → (fill_if_info_list y hs (l, name)).0 ≡ l ++ map (if_info_of y) (routed hs)
    unfolding fill_if_info_list
    filled [] l name = sym (append-nil l)
    filled (h ∷ hs) l name = elim (Bool-cases (is_routed h)) [
      | inl keep ↦
          rw (keep, fill_if_info_list)
            (filled hs (y.list_add (if_info_of y h) l) _
              ∙ ap (λ m. m ++ map (if_info_of y) (routed hs)) (last (if_info_of y h) l)
              ∙ append_assoc l (if_info_of y h ∷ []) (map (if_info_of y) (routed hs)))
      | inr skip ↦ rw (skip, fill_if_info_list) (filled hs l name)
    ]

    -- The process of odr.c, once it has started, sends for each message of a client one broadcast
    -- through each interface that is neither the loopback interface nor eth0, in order, and
    -- nothing else, whatever frames come in between and whatever sendto returns; it ends at the
    -- first error of a receive from a client, and by nothing else, where list_add adds last.
    pub broadcasts :
        (items : List Ifreq) (buffer : List ℕ) (n : Process) (rs : List Round)
        → start y items buffer ≡ some n
        → (m : Process) × (loop y rs n ≡ (if fails rs then err m else running m))
          × (m.sent ≡ again (requests rs) (frames_of y (get_hw_addrs items)) [])
    broadcasts items buffer n rs h =
        let hs = get_hw_addrs items in
        let (m, e, sent) = loop-sent rs n in
        let (list, none_yet) = started items buffer n h in
        let frames : map (broadcast_frame y) n.if_info_list ≡ frames_of y hs =
          ap (map (broadcast_frame y)) list
          ∙ bound-frames (pos 0) (fill_if_info_list y hs ([], unset)).0
          ∙ ap (map (broadcast_frame y)) (filled hs [] unset)
          ∙ map-map (broadcast_frame y) (if_info_of y) (routed hs) in
        (m, e, sent ∙ rw (frames, none_yet) refl)
