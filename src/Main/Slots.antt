-- ===== src/Main/Slots.antt =====
-- The number that `latest_rreq` holds for one source, and the RREQs that raise it.
use odr.Prelude.{
  ℕ, ◌≡◌, ◌∙◌, ap, sym, Bool, true, false, ◌&&◌, not, Option, some, none, arith, Bool-cases,
  Option-cases, inl, inr, and_true, if◌then◌else◌,
}
use odr.Prelude.Int.{
  ℤ, pos, ltb_ℤ, ◌+ℤ◌, ◌<ℤ◌, ◌≤ℤ◌, ◌==ℤ◌, ==ℤ_iff, ==ℤ_ne, to_char-small, int_laws,
}
use odr.Structs.{OdrPack, type_rreq}
use odr.Platform.{Platform}
use odr.Table.{get_index_from_ip}
use odr.Node.{Node, latest_at, latest_put}
use odr.Odr.Common.{Outcome, note_sender, is_self_dest}
use odr.Odr.Rreq.{forward_rreq, relay_rreq}
use odr.Odr.Cases.{Ensures, over_limit, in_range}
use odr.Odr.Frame.{SameTables, forward_rreq-keeps}
use odr.Odr.Kept.{Records, process_pack-kept}
use odr.Odr.Flood.{Relayed, latest_at-put, process_pack-relay, relay_new}
use odr.Odr.{process_pack}
use odr.Main.{FrameIn}
use odr.Main.Once.{Numbered, slot_after}

-- The slot `j` holds a number from `x` to 127.
abbrev pub Span : ℤ → ℤ → Node → Type 0
Span j x n = (y : ℤ) × (latest_at j n.latest_rreq ≡ some y) × (x ≤ℤ y) × (y ≤ℤ pos 127)

module _ (p : Platform) (j : ℤ) where
  -- The packet is an RREQ of the slot `j` that passes the tests: within the hop limit, not answered, for
  -- another node, and with an id above the recorded one.
  abbrev pub admits : OdrPack → Node → Bool
  admits k n =
      not (over_limit k)
      && (k.type ==ℤ type_rreq
          && (not (k.rreq.rrep_sent ==ℤ pos 1)
              && (not (is_self_dest p k.dest_can_ip_str ==ℤ pos 1)
                  && (get_index_from_ip p k.src_can_ip_str ==ℤ j
                      && elim (latest_at j n.latest_rreq) [
                        | none ↦ false
                        | some x ↦ ltb_ℤ x k.rreq.broadcast_id
                      ]))))

  abbrev pub admits_frame : Option FrameIn → Node → ℕ
  admits_frame none n = 0
  admits_frame (some f) n = if admits f.packet n then 1 else 0

  Span-le : (x y : ℤ) → x ≤ℤ y → (o : Outcome) → Ensures (Span j y) o → Ensures (Span j x) o
  Span-le x y h none v = tt
  Span-le x y h (some (r, n)) (z, e, b, c) = (z, e, omega arith, c)

  above :
      (k : OdrPack) (x : ℤ) (o : Option ℤ)
      → o ≡ some x
      → elim o as (λ z. Bool) [ none ↦ false | some y ↦ ltb_ℤ y k.rreq.broadcast_id ] ≡ true
      → x <ℤ k.rreq.broadcast_id
  above k x none e h = cc
  above k x (some y) e h = ground arith

  module _ (x : ℤ) where
    SameTables-Span : (n m : Node) → SameTables n m → Span j x n → Span j x m
    SameTables-Span n m s (y, e, b, c) = (y, rw (s.1) e, b, c)

    Records-Span : (k : OdrPack) → pos 0 ≤ℤ x → Numbered p j k → Records p k (Span j x)
    Records-Span k lo small n z l at new wrote (y, e, b, c) =
        let (u, f, d) = slot_after p j k n z y l small at new wrote e (omega arith) in
        elim d [
          | inl same ↦ (u, f, rw same b, rw same c)
          | inr (more, top) ↦ (u, f, omega arith, top)
        ]

    -- What the tests say.
    pub admits-Relayed :
        (k : OdrPack) (n : Node)
        → latest_at j n.latest_rreq ≡ some x
        → admits k n ≡ true
        → Relayed p k × (get_index_from_ip p k.src_can_ip_str ≡ j) × (x <ℤ k.rreq.broadcast_id)
    admits-Relayed k n e h =
        let (a, h1) = and_true (not (over_limit k)) _ h in
        let (b, h2) = and_true (k.type ==ℤ type_rreq) _ h1 in
        let (c, h3) = and_true (not (k.rreq.rrep_sent ==ℤ pos 1)) _ h2 in
        let (d, h4) = and_true (not (is_self_dest p k.dest_can_ip_str ==ℤ pos 1)) _ h3 in
        let (f, h5) = and_true (get_index_from_ip p k.src_can_ip_str ==ℤ j) _ h4 in
        (
          record {
            is_rreq = (==ℤ_iff k.type type_rreq).0 b;
            in_range = in_range k (ground arith);
            unanswered = ==ℤ_ne k.rreq.rrep_sent (pos 1) (ground arith);
            elsewhere = ==ℤ_ne (is_self_dest p k.dest_can_ip_str) (pos 1) (ground arith);
          },
          (==ℤ_iff (get_index_from_ip p k.src_can_ip_str) j).0 f,
          above k x (latest_at j n.latest_rreq) e h5,
        )

  -- An RREQ that passes leaves its id in the slot.
  pub admits-Span :
      (f : FrameIn) (n : Node) (x : ℤ)
      → Numbered p j f.packet
      → pos 0 ≤ℤ x
      → latest_at j n.latest_rreq ≡ some x
      → admits f.packet n ≡ true
      → Ensures
          (Span j f.packet.rreq.broadcast_id)
          (process_pack p f.packet f.h_source f.sll_ifindex n)
  unfolding note_sender relay_rreq
  admits-Span f n x small lo e goes =
      let k = f.packet in
      let (c, key, new) = admits-Relayed x k n e goes in
      let i = get_index_from_ip p k.src_can_ip_str in
      let n' = note_sender p k f.h_source f.sll_ifindex n in
      let at : latest_at i n'.latest_rreq ≡ some x = ap (λ s. latest_at s n.latest_rreq) key ∙ e in
      let above_true : ltb_ℤ x k.rreq.broadcast_id ≡ true = ground arith in
      rw (process_pack-relay p k f.h_source f.sll_ifindex n c)
        (elim (Option-cases (latest_put i k.rreq.broadcast_id n.latest_rreq)) [
          | inl out ↦ rw (at, relay_rreq) (rw (above_true, relay_rreq) (rw (out, relay_rreq) tt))
          | inr (l, wrote) ↦
              rw (relay_new p (is_self_dest p k.dest_can_ip_str) k f.sll_ifindex n' at wrote new) (
                SameTables-Span k.rreq.broadcast_id (record n' { latest_rreq = l })
                  (forward_rreq p k f.sll_ifindex (record n' { latest_rreq = l })).1
                  (forward_rreq-keeps p k f.sll_ifindex (record n' { latest_rreq = l }))
                  (
                    k.rreq.broadcast_id,
                    ap (λ s. latest_at s l) (sym key)
                        ∙ latest_at-put i k.rreq.broadcast_id n.latest_rreq l wrote
                        ∙ ap some (to_char-small k.rreq.broadcast_id (omega arith) (small key)),
                    omega arith,
                    small key,
                  ))
        ])

  -- After a frame the slot has grown, if the RREQ passed.
  pub process_pack-Span :
      (f : FrameIn) (n : Node) (x : ℤ)
      → Numbered p j f.packet
      → pos 0 ≤ℤ x
      → x ≤ℤ pos 127
      → latest_at j n.latest_rreq ≡ some x
      → Ensures
          (Span j (pos (admits_frame (some f) n) +ℤ x))
          (process_pack p f.packet f.h_source f.sll_ifindex n)
  unfolding note_sender
  process_pack-Span f n x small lo hi e =
      let o = process_pack p f.packet f.h_source f.sll_ifindex n in
      elim (Bool-cases (admits f.packet n)) [
        | inr stays ↦ rw stays (
            Span-le (pos 0 +ℤ x) x (omega int_laws) o (
              process_pack-kept p (Span j x) (SameTables-Span x) f.packet
                (Records-Span x f.packet lo small) f.h_source f.sll_ifindex n
                (x, e, omega arith, hi) (λ r. (x, e, omega arith, hi))))
        | inl goes ↦
            let (c, key, new) = admits-Relayed x f.packet n e goes in
            rw goes (
              Span-le (pos 1 +ℤ x) f.packet.rreq.broadcast_id (omega int_laws) o
                (admits-Span f n x small lo e goes))
      ]

  pub admits_frame-le :
      (f : Option FrameIn) (n : Node) (x : ℤ)
      → (elim f as (λ x. Type 0) [ none ↦ Unit | some f ↦ Numbered p j f.packet ])
      → x ≤ℤ pos 127
      → latest_at j n.latest_rreq ≡ some x
      → (pos (admits_frame f n) +ℤ x) ≤ℤ pos 127
  admits_frame-le none n x small hi e = omega int_laws
  admits_frame-le (some f) n x small hi e = elim (Bool-cases (admits f.packet n)) [
    | inr stays ↦ rw stays (omega int_laws)
    | inl goes ↦
        let (c, key, new) = admits-Relayed x f.packet n e goes in
        let top = small key in rw goes (omega int_laws)
  ]
