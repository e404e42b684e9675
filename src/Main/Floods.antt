-- ===== src/Main/Floods.antt =====
-- How often a node takes part in the floods of one source, over a run of the loop.
use odr.Prelude.{
  ℕ, ◌+◌, ◌≤◌, refl, true, Bool-cases, inl, inr, if◌then◌else◌, ◌≡◌, ◌≢◌, ◌∙◌, List, [], ◌∷◌,
  Option, some, none, arith, All,
}
use odr.Prelude.Int.{ℤ, pos, ◌+ℤ◌, ◌≤ℤ◌, int_laws}
use odr.Platform.{Platform}
use odr.Table.{get_index_from_ip}
use odr.Node.{Node, latest_at}
use odr.Odr.{process_pack}
use odr.Main.{FrameIn, Round, Progress, running, failed, fault, get_can_ip, on_frame, round}
use odr.Main.Once.{Numbered, handle_request-other_slot}
use odr.Main.Induction.{Fits, Leaves, Ensures-Leaves, then-Leaves, on_datagram-Leaves, From-Anyone}
use odr.Link.Sent.{Anyone}
use odr.Odr.Common.{Outcome}
use odr.Odr.Cases.{Ensures}
use odr.Main.Silent.{copies, sent_more, process_pack-silent}
use odr.Main.Slots.{Span, admits, admits_frame, process_pack-Span, admits_frame-le}

module _ (p : Platform) (j : ℤ) where
  abbrev counted : Node → Outcome → ℕ
  counted n none = 0
  counted n (some r) = if sent_more p j (λ id. true) n r.1 then 1 else 0

  -- Whether the node has sent more RREQs of the slot `j` after the frame than before.
  abbrev pub sends_rreq : Option FrameIn → Node → ℕ
  sends_rreq none n = 0
  sends_rreq (some f) n = counted n (process_pack p f.packet f.h_source f.sll_ifindex n)

  -- How many frames make the node send RREQs of the slot `j`, in the rounds of the loop.
  abbrev pub floods : List Round → Node → ℕ
  floods [] n = 0
  floods (r ∷ rs) n =
      sends_rreq r.frame n
      + elim (round p r n) [ running m ↦ floods rs m | failed m ↦ 0 | fault ↦ 0 ]

  -- A frame that is not admitted is none of them.
  sends_rreq-admits :
      (f : Option FrameIn) (n : Node) (x : ℤ)
      → latest_at j n.latest_rreq ≡ some x
      → sends_rreq f n ≤ admits_frame p j f n
  sends_rreq-admits none n x e = omega arith
  sends_rreq-admits (some f) n x e = elim (Bool-cases (admits p j f.packet n)) [
    | inl goes ↦ rw goes (at_most (process_pack p f.packet f.h_source f.sll_ifindex n))
    | inr stays ↦ rw stays (
        quiet (process_pack p f.packet f.h_source f.sll_ifindex n) (
          process_pack-silent p j (λ id. true) f.packet f.h_source f.sll_ifindex n x e
            (rw stays refl)))
  ]
    where
      at_most : (o : Outcome) → counted n o ≤ 1
      at_most none = omega arith
      at_most (some r) = ground arith

      quiet :
          (o : Outcome)
          → Ensures (λ m. copies p j (λ id. true) m.sent ≡ copies p j (λ id. true) n.sent) o
          → counted n o ≤ 0
      quiet none h = omega arith
      quiet (some r) h = rw h (ground arith)

  module _ (other : j ≢ get_index_from_ip p (get_can_ip p)) where
    round-Span :
        (r : Round) (n : Node) (x : ℤ)
        → Fits (λ f. Numbered p j f.packet) r
        → pos 0 ≤ℤ x
        → x ≤ℤ pos 127
        → latest_at j n.latest_rreq ≡ some x
        → Leaves (Span j (pos (admits_frame p j r.frame n) +ℤ x)) (round p r n)
    unfolding round on_frame
    round-Span r n x small lo hi e =
        let z = pos (admits_frame p j r.frame n) +ℤ x in
        then-Leaves p (Span j z) r.datagram
          (λ m s.
            on_datagram-Leaves p (Span j z) Anyone
              (λ addr q u m w h (y, at, b, c).
                (y, handle_request-other_slot p j other addr q u m h ∙ at, b, c))
              r.datagram m (From-Anyone r.datagram) s)
          (on_frame p r.frame n) (after r.frame small)
      where
        after :
            (f : Option FrameIn)
            → (elim f as (λ x. Type 0) [ none ↦ Unit | some f ↦ Numbered p j f.packet ])
            → Leaves (Span j (pos (admits_frame p j f n) +ℤ x)) (on_frame p f n)
        after none q = (x, e, omega int_laws, hi)
        after (some f) q =
            Ensures-Leaves (Span j (pos (admits_frame p j (some f) n) +ℤ x))
              (process_pack p f.packet f.h_source f.sll_ifindex n)
              (process_pack-Span p j f n x q lo hi e)

    -- Over any rounds of the loop, however often copies of them come, the frames that make a node
    -- send RREQs of one source are no more than 127 less the number that the source's slot holds
    -- at first. Such a frame is one after which the node has handed more frames with an RREQ of
    -- that slot to sendto than before. The slot is not the node's own and holds a number from 0
    -- to 127, and the frames have ids up to 127 for it.
    pub floods-bounded :
        (rs : List Round) (n : Node) (x : ℤ)
        → All (Fits (λ f. Numbered p j f.packet)) rs
        → pos 0 ≤ℤ x
        → x ≤ℤ pos 127
        → latest_at j n.latest_rreq ≡ some x
        → (pos (floods rs n) +ℤ x) ≤ℤ pos 127
    floods-bounded [] n x small lo hi e = omega int_laws
    floods-bounded (r ∷ rs) n x small lo hi e =
        let c = admits_frame p j r.frame n in
        let few = sends_rreq-admits r.frame n x e in
        let rest =
          rounds (pos c +ℤ x) (round p r n) (omega int_laws)
            (admits_frame-le p j r.frame n x small.0 hi e) (round-Span r n x small.0 lo hi e)
            (λ m y. floods-bounded rs m y small.1) in
        omega int_laws
      where
        rounds :
            (z : ℤ) (s : Progress)
            → pos 0 ≤ℤ z
            → z ≤ℤ pos 127
            → Leaves (Span j z) s
            → ((m : Node) (y : ℤ)
                → pos 0 ≤ℤ y
                → y ≤ℤ pos 127
                → latest_at j m.latest_rreq ≡ some y
                → (pos (floods rs m) +ℤ y) ≤ℤ pos 127)
            → (pos (elim s [ running m ↦ floods rs m | failed m ↦ 0 | fault ↦ 0 ]) +ℤ z) ≤ℤ pos 127
        rounds z (running m) a b (y, at, c, d) next =
            let more = next m y (omega arith) d at in omega int_laws
        rounds z (failed m) a b v next = omega int_laws
        rounds z fault a b v next = omega int_laws
