-- ===== src/Link/Frames.antt =====
-- What the three functions send, in order, and when they report success.
use odr.Prelude.{
  ℕ, ◌≡◌, refl, subst, true, false, List, [], ◌∷◌, map, Option, none, some, arith, if◌then◌else◌,
  Bool-cases, inl, inr,
}
use odr.Prelude.Int.{ℤ, pos, ◌≤ℤ◌, ◌==ℤ◌, ==ℤ_iff}
use odr.Structs.{OdrPack, IfInfo, Entry, Out, to_link}
use odr.Platform.{Platform}
use odr.Table.{first_with, entry_exists_for_src}
use odr.Table.Keys.{Distinct}
use odr.Link.{
  broadcast_frame, unicast_frame, status, broadcast_one, broadcast_each, broadcast_ll_msg, send_one,
  send_each, send_ll_msg, payload_one, payload_each, send_payload,
}

-- Messages in the order in which they go out, put on a list that holds the newest first.
abbrev pub push_all : List Out → List Out → List Out
push_all [] s = s
push_all (o ∷ os) s = push_all os (o ∷ s)

-- The interfaces other than the one with index `i`, and those with it.
abbrev pub others : ℤ → List IfInfo → List IfInfo
others i [] = []
others i (f ∷ fs) = if i ==ℤ f.sll_ifindex then others i fs else f ∷ others i fs

abbrev pub matching : ℤ → List IfInfo → List IfInfo
matching i [] = []
matching i (f ∷ fs) = if i ==ℤ f.sll_ifindex then f ∷ matching i fs else matching i fs

-- The frames of a broadcast and of a unicast, in order.
abbrev pub flood : OdrPack → ℤ → List IfInfo → List Out
flood k i fs = map (λ f. to_link (broadcast_frame k f)) (others i fs)

abbrev pub unicast : OdrPack → List ℕ → ℤ → List IfInfo → List Out
unicast k to i fs = map (λ f. to_link (unicast_frame k to i f)) (matching i fs)

-- Every send succeeds.
pub record Healthy (p : Platform) : Type 0 where
  pub sends : (s : List Out) (o : Out) → pos 0 ≤ℤ p.sendto s o

module _ (p : Platform) where
  broadcast_each-frames :
      (k : OdrPack) (i : ℤ) (fs : List IfInfo) (r : ℤ) (s : List Out)
      → (broadcast_each p k i fs (r, s)).1 ≡ push_all (flood k i fs) s
  unfolding broadcast_each broadcast_one
  broadcast_each-frames k i [] r s = refl
  broadcast_each-frames k i (f ∷ fs) r s = elim (Bool-cases (i ==ℤ f.sll_ifindex)) [
    | inl here ↦ rw (here, broadcast_each) (broadcast_each-frames k i fs r s)
    | inr there ↦ rw (there, broadcast_each) (broadcast_each-frames k i fs _ _)
  ]

  -- A broadcast hands over one frame for each interface but the one of the given index, in the
  -- order of the list, whatever the results of the sends.
  pub broadcast-frames :
      (k : OdrPack) (i : ℤ) (fs : List IfInfo) (s : List Out)
      → (broadcast_ll_msg p fs k i s).1 ≡ push_all (flood k i fs) s
  unfolding broadcast_ll_msg
  broadcast-frames k i fs s = broadcast_each-frames k i fs (pos 0) s

  send_each-frames :
      (k : OdrPack) (to : List ℕ) (i : ℤ) (fs : List IfInfo) (r : ℤ) (s : List Out)
      → (send_each p k to i fs (r, s)).1 ≡ push_all (unicast k to i fs) s
  unfolding send_each send_one
  send_each-frames k to i [] r s = refl
  send_each-frames k to i (f ∷ fs) r s = elim (Bool-cases (i ==ℤ f.sll_ifindex)) [
    | inl here ↦ rw (here, send_each) (send_each-frames k to i fs _ _)
    | inr there ↦ rw (there, send_each) (send_each-frames k to i fs r s)
  ]

  -- A unicast goes out once through each interface of the given index.
  pub send-frames :
      (k : OdrPack) (to : List ℕ) (i : ℤ) (fs : List IfInfo) (s : List Out)
      → (send_ll_msg p fs k to i s).1 ≡ push_all (unicast k to i fs) s
  unfolding send_ll_msg
  send-frames k to i fs s = send_each-frames k to i fs (pos 0) s

  status-status : (r : ℤ) → status (status r) ≡ status r
  unfolding status
  status-status r = ground arith

  payload_each-miss :
      (fs : List IfInfo) (k : OdrPack) (key : ℤ) (es : List Entry) (r : ℤ × List Out)
      → entry_exists_for_src key es ≡ false
      → payload_each p fs k key es r ≡ r
  unfolding payload_each payload_one entry_exists_for_src
  payload_each-miss fs k key [] r h = refl
  payload_each-miss fs k key (e ∷ es) r h = elim (Bool-cases (e.key ==ℤ key)) [
    | inl here ↦ absurd (ground arith)
    | inr there ↦ rw (there, payload_each) (payload_each-miss fs k key es r (ground arith))
  ]

  -- What a payload for the node of a key does: one unicast to the next hop of its entry.
  abbrev pub to_entry : List IfInfo → OdrPack → List Out → Option Entry → ℤ × List Out
  to_entry fs k s none = (pos 1, s)
  to_entry fs k s (some e) = send_ll_msg p fs k e.next_hop_hwaddr e.if_no s

  send-status :
      (k : OdrPack) (to : List ℕ) (i : ℤ) (fs : List IfInfo) (s : List Out)
      → let r = send_ll_msg p fs k to i s in ◌≡◌ {A = ℤ × List Out} (status r.0, r.1) r
  unfolding send_ll_msg
  send-status k to i fs s = rw status-status

  absent :
      (key : ℤ) (e : Entry) (es : List Entry)
      → (e.key ==ℤ key) ≡ true
      → Distinct (e ∷ es)
      → entry_exists_for_src key es ≡ false
  absent key e es h d = subst (λ j. entry_exists_for_src j es ≡ false) ((==ℤ_iff e.key key).0 h) d.0

  payload_each-hit :
      (fs : List IfInfo) (k : OdrPack) (key : ℤ) (es : List Entry) (s : List Out)
      → Distinct es
      → let (r, s') = payload_each p fs k key es (pos 0, s) in
        ◌≡◌ {A = ℤ × List Out} (status r, s') (to_entry fs k s (first_with key es))
  unfolding payload_each payload_one first_with
  payload_each-hit fs k key [] s d = unfold status in refl
  payload_each-hit fs k key (e ∷ es) s d = elim (Bool-cases (e.key ==ℤ key)) [
    | inl here ↦
        rw (here, payload_each, first_with)
          (rw (payload_each-miss fs k key es _ (absent key e es here d))
            (send-status k e.next_hop_hwaddr e.if_no fs s))
    | inr there ↦ rw (there, payload_each, first_with) (payload_each-hit fs k key es s d.1)
  ]

  -- In a table with one entry for each node, send_payload is send_ll_msg to the next hop of the
  -- key's entry, and nothing if there is none, with its result.
  pub payload-frames :
      (fs : List IfInfo) (k : OdrPack) (key : ℤ) (es : List Entry) (s : List Out)
      → Distinct es
      → send_payload p fs es k key s ≡ to_entry fs k s (first_with key es)
  unfolding send_payload
  payload-frames fs k key es s d = payload_each-hit fs k key es s d

  module _ (up : Healthy p) where
    broadcast_each-ok :
        (k : OdrPack) (i : ℤ) (fs : List IfInfo) (r : ℤ) (s : List Out)
        → pos 0 ≤ℤ r
        → pos 0 ≤ℤ (broadcast_each p k i fs (r, s)).0
    unfolding broadcast_each broadcast_one
    broadcast_each-ok k i [] r s h = h
    broadcast_each-ok k i (f ∷ fs) r s h = elim (Bool-cases (i ==ℤ f.sll_ifindex)) [
      | inl here ↦ rw (here, broadcast_each) (broadcast_each-ok k i fs r s h)
      | inr there ↦ rw (there, broadcast_each) (broadcast_each-ok k i fs _ _ (up.sends _ _))
    ]

    send_each-ok :
        (k : OdrPack) (to : List ℕ) (i : ℤ) (fs : List IfInfo) (r : ℤ) (s : List Out)
        → pos 0 ≤ℤ r
        → pos 0 ≤ℤ (send_each p k to i fs (r, s)).0
    unfolding send_each send_one
    send_each-ok k to i [] r s h = h
    send_each-ok k to i (f ∷ fs) r s h = elim (Bool-cases (i ==ℤ f.sll_ifindex)) [
      | inl here ↦ rw (here, send_each) (send_each-ok k to i fs _ _ (up.sends _ _))
      | inr there ↦ rw (there, send_each) (send_each-ok k to i fs r s h)
    ]

    status-ok : (r : ℤ) → pos 0 ≤ℤ r → status r ≡ pos 1
    unfolding status
    status-ok r h = ground arith

    pub broadcast-ok :
        (k : OdrPack) (i : ℤ) (fs : List IfInfo) (s : List Out)
        → (broadcast_ll_msg p fs k i s).0 ≡ pos 1
    unfolding broadcast_ll_msg
    broadcast-ok k i fs s = status-ok _ (broadcast_each-ok k i fs (pos 0) s (omega arith))

    pub send-ok :
        (k : OdrPack) (to : List ℕ) (i : ℤ) (fs : List IfInfo) (s : List Out)
        → (send_ll_msg p fs k to i s).0 ≡ pos 1
    unfolding send_ll_msg
    send-ok k to i fs s = status-ok _ (send_each-ok k to i fs (pos 0) s (omega arith))

    payload_each-ok :
        (fs : List IfInfo) (k : OdrPack) (key : ℤ) (es : List Entry) (r : ℤ) (s : List Out)
        → pos 0 ≤ℤ r
        → pos 0 ≤ℤ (payload_each p fs k key es (r, s)).0
    unfolding payload_each payload_one
    payload_each-ok fs k key [] r s h = h
    payload_each-ok fs k key (e ∷ es) r s h = elim (Bool-cases (e.key ==ℤ key)) [
      | inl here ↦
          rw (here, payload_each)
            (payload_each-ok fs k key es _ _
              (rw (send-ok k e.next_hop_hwaddr e.if_no fs s) (omega arith)))
      | inr there ↦ rw (there, payload_each) (payload_each-ok fs k key es r s h)
    ]

    pub payload-ok :
        (fs : List IfInfo) (es : List Entry) (k : OdrPack) (key : ℤ) (s : List Out)
        → (send_payload p fs es k key s).0 ≡ pos 1
    unfolding send_payload
    payload-ok fs es k key s = status-ok _ (payload_each-ok fs k key es (pos 0) s (omega arith))

-- The frames of a payload for a node, by the node's route.
abbrev pub payload_frames : OdrPack → List IfInfo → Option Entry → List Out
payload_frames k fs none = []
payload_frames k fs (some e) = unicast k e.next_hop_hwaddr e.if_no fs

pub to_entry-frames :
    (p : Platform) (q : OdrPack) (fs : List IfInfo) (s : List Out) (x : Option Entry)
    → (to_entry p fs q s x).1 ≡ push_all (payload_frames q fs x) s
to_entry-frames p q fs s none = refl
to_entry-frames p q fs s (some e) = send-frames p q e.next_hop_hwaddr e.if_no fs s
