-- ===== src/Network/Copies.antt =====
-- How many copies of one RREQ the nodes of a network send on.
use odr.Prelude.{
  ℕ, ◌+◌, ◌≤◌, ◌<◌, ◌≡◌, ◌⊎◌, refl, sym, subst, ap, and_true, Option, Bool, true, false, ◌&&◌, List,
  none, some, arith, Bool-cases, inl, inr, if◌then◌else◌,
}
use odr.Prelude.Int.{ℤ, pos, ◌≤ℤ◌, ◌<ℤ◌, ◌==ℤ◌, ltb_ℤ, ==ℤ_iff}
use odr.Prelude.Sum.{sum, sum-le, sum-fall}
use odr.Structs.{OdrPack, OdrReq, Frame, to_link}
use odr.Node.{Node, latest_at}
use odr.Main.{FrameIn, request, running, on_frame, on_datagram}
use odr.Main.Silent.{copies, sent_more, process_pack-silent}
use odr.Main.Slots.{Span, admits, admits-Span, admits-Relayed}
use odr.Network.{World, Net, with_node, received, Step, hear, ask, Reach, here, next}
use odr.Network.Ids.{
  Small, In-Small, Step-Grows, elsewhere, IdsOk, hear-Span, hear-IdsOk, ask-slot, ask-IdsOk,
}
use odr.Network.Steps.{on_frame-Ensures, with_node-all, with_node_self, with_node_other}

module _ (w : World) (j b : ℤ) where
  -- A copy of the RREQ with the id `b` that passes the node's tests.
  abbrev sends_copy : ℕ → OdrPack → Node → Bool
  sends_copy v k n = admits (w.platform v) j k n && k.rreq.broadcast_id ==ℤ b

  -- The node has not recorded the id.
  abbrev is_below : Option ℤ → Bool
  is_below none = false
  is_below (some x) = ltb_ℤ x b

  abbrev behind : Node → Bool
  behind n = is_below (latest_at j n.latest_rreq)

  abbrev one_if : Bool → ℕ
  one_if t = if t then 1 else 0

  -- The node has sent more frames with the RREQ.
  abbrev more_copies : ℕ → Node → Node → Bool
  more_copies v n m = sent_more (w.platform v) j (λ id. id ==ℤ b) n m

  -- Whether another node than the source hears a frame and then has sent more of them.
  abbrev relay : {c d : Net} → Step w c d → ℕ
  relay {c} (hear s v f i m sent heard go) = one_if (elsewhere w j v && more_copies v (c v) m)
  relay (ask v addr r m go) = 0

  -- How many times a frame makes a node other than the source send the RREQ.
  abbrev pub relays : {c d : Net} → Reach w c d → ℕ
  relays here = 0
  relays (next r st) = relays r + relay st

  abbrev unaware : Net → ℕ → ℕ
  unaware c v = one_if (elsewhere w j v && behind (c v))

  -- How many of the first nodes, other than the source, have not recorded it.
  abbrev pub left : ℕ → Net → ℕ
  left u c = sum (unaware c) u

  one_if-le : (t : Bool) → one_if t ≤ 1
  one_if-le true = omega arith
  one_if-le false = omega arith

  behind-at : (n : Node) (x : ℤ) → latest_at j n.latest_rreq ≡ some x → behind n ≡ ltb_ℤ x b
  behind-at n x e = ap is_below e

  -- The slot grows with a frame, to the id if the node sends more copies.
  falls :
      (n m : Node) (x : ℤ) (t : Bool)
      → latest_at j n.latest_rreq ≡ some x
      → (t ≡ true → (x <ℤ b) × Span j b m)
      → Span j x m
      → one_if (behind m) + one_if t ≤ one_if (behind n)
  falls n m x true e copy s =
      let (lt, (y, at, le, _)) = copy refl in rw (behind-at n x e, behind-at m y at) (ground arith)
  falls n m x false e copy (y, at, le, _) = rw (behind-at n x e, behind-at m y at) (ground arith)

  module _ (v : ℕ) (f : FrameIn) (n m : Node) (small : Small f.packet)
      (go : on_frame (w.platform v) (some f) n ≡ running m) where
    -- Only a copy that the node admits makes it send more of them.
    more-sends_copy :
        (x : ℤ)
        → latest_at j n.latest_rreq ≡ some x
        → more_copies v n m ≡ true
        → sends_copy v f.packet n ≡ true
    more-sends_copy x at more = elim (Bool-cases (sends_copy v f.packet n)) [
      | inl copy ↦ copy
      | inr other ↦
          let p = w.platform v in
          let same : copies p j (λ id. id ==ℤ b) m.sent ≡ copies p j (λ id. id ==ℤ b) n.sent =
            on_frame-Ensures p
              (λ u. copies p j (λ id. id ==ℤ b) u.sent ≡ copies p j (λ id. id ==ℤ b) n.sent) f n m
              (process_pack-silent p j (λ id. id ==ℤ b) f.packet f.h_source f.sll_ifindex n x at
                other)
              go in
          absurd (ground (arith, same, more))
    ]

    hear-falls :
        (elsewhere w j v ≡ true → Span j (pos 0) n)
        → one_if (elsewhere w j v && behind m) + one_if (elsewhere w j v && more_copies v n m)
          ≤ one_if (elsewhere w j v && behind n)
    hear-falls slot = elim (Bool-cases (elsewhere w j v)) [
      | inr source ↦ rw source (omega arith)
      | inl other ↦
          let (x, at, lo, hi) = slot other in
          rw other (
            falls n m x (more_copies v n m) at
              (λ more.
                let t = more-sends_copy x at more in
                let (on, id) =
                  and_true (admits (w.platform v) j f.packet n) (f.packet.rreq.broadcast_id ==ℤ b)
                    t in
                let same = (==ℤ_iff f.packet.rreq.broadcast_id b).0 id in
                let (c, key, new) = admits-Relayed (w.platform v) j x f.packet n at on in
                (
                  subst (λ z. x <ℤ z) same new,
                  subst (λ z. Span j z m) same
                      (on_frame-Ensures (w.platform v) (Span j f.packet.rreq.broadcast_id) f n m
                        (admits-Span (w.platform v) j f n x (λ q. small) lo at on) go),
                ))
              (hear-Span w j v f n m small go x lo hi at))
    ]

  module _ (v : ℕ) (addr : List ℕ) (r : OdrReq) (n m : Node)
      (go : on_datagram (w.platform v) (some (request addr r)) n ≡ running m) where
    ask-stays : one_if (elsewhere w j v && behind m) ≤ one_if (elsewhere w j v && behind n)
    ask-stays = elim (Bool-cases (elsewhere w j v)) [
      | inr source ↦ rw source (omega arith)
      | inl other ↦ rw (other, ask-slot w j v addr r n m go other) (omega arith)
    ]

  module _ (size : ℕ) (within : (s v : ℕ) (f : Frame) (i : ℤ) → w.hears s f v i → v < size) where
    changes :
        (c : Net) (v g : ℕ) (m : Node)
        → (v < size) ⊎ (g ≡ 0)
        → one_if (elsewhere w j v && behind m) + g ≤ unaware c v
        → left size (with_node v m c) + g ≤ left size c
    changes c v g m h q =
        sum-fall (unaware c) (unaware (with_node v m c)) v
          (λ u ne. ap (λ n. one_if (elsewhere w j u && behind n)) (with_node_other c v u m ne)) g
          size
          (subst (λ n. one_if (elsewhere w j v && behind n) + g ≤ unaware c v)
            (sym (with_node_self c v m)) q)
          h

    Step-left :
        {c d : Net} (st : Step w c d)
        → ((v : ℕ) → IdsOk w j v (c v))
        → ((v : ℕ) → (d v).running_broadcast_no ≤ℤ pos 128)
        → (left size d + relay st ≤ left size c) × ((v : ℕ) → IdsOk w j v (d v))
    Step-left {c} (hear s v f i m sent heard go) ok few =
        let small = In-Small (to_link f) (c s).sent (ok s).frames sent in
        (
          changes c v (one_if (elsewhere w j v && more_copies v (c v) m)) m
              (inl (within s v f i heard))
              (hear-falls v (received f i) (c v) m small go (ok v).slot),
          with_node-all (IdsOk w j) c v m ok
              (hear-IdsOk w j v (received f i) (c v) m small go (ok v)),
        )
    Step-left {c} (ask v addr r m go) ok few =
        let top = subst (λ n. n.running_broadcast_no ≤ℤ pos 128) (with_node_self c v m) (few v) in
        let stays = ask-stays v addr r (c v) m go in
        (
          changes c v 0 m (inr refl) (omega arith),
          with_node-all (IdsOk w j) c v m ok (ask-IdsOk w j v addr r (c v) m go top (ok v)),
        )

    Reach-left :
        {c d : Net} (run : Reach w c d)
        → ((v : ℕ) → IdsOk w j v (c v))
        → ((v : ℕ) → (d v).running_broadcast_no ≤ℤ pos 128)
        → (left size d + relays run ≤ left size c) × ((v : ℕ) → IdsOk w j v (d v))
    Reach-left here ok few = (omega arith, ok)
    Reach-left (next r st) ok few =
        let (sofar, ok') =
          Reach-left r ok (λ v. let grows = Step-Grows w st v in let top = few v in omega arith) in
        let (falls, ok'') = Step-left st ok' few in (omega arith, ok'')

    -- A flood ends: in any run of a network, however its nodes send, receive and ask, the times
    -- that a frame makes a node other than the source send one RREQ are no more than the number
    -- of these nodes that have not recorded its id at first, less the number of those that have
    -- not at the end; and so no more than there are nodes. The RREQ is given by the slot of its
    -- source and its id, and a frame makes a node send it if the node has handed more frames with
    -- it to sendto after the frame than before. Only so many nodes hear anything as the given
    -- size says; at first the slot holds a number from 0 to 127 at each node but the source, and
    -- all frames and kept packets have ids up to 127; and at the end no running number is above
    -- 128.
    pub copies-bounded :
        {c d : Net} (run : Reach w c d)
        → ((v : ℕ) → IdsOk w j v (c v))
        → ((v : ℕ) → (d v).running_broadcast_no ≤ℤ pos 128)
        → (left size d + relays run ≤ left size c) × (left size c ≤ size)
    copies-bounded {c} run ok few =
        ((Reach-left run ok few).0, sum-le (unaware c) (λ v. one_if-le _) size)
