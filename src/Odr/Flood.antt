-- ===== src/Odr/Flood.antt =====
-- The flooding of RREQs: which RREQs a node sends on, and what it sends.
use odr.Prelude.{
  ℕ, zero, suc, [], ◌∷◌, All, subst, ◌≡◌, ◌≢◌, ap, ◌∙◌, true, false, List, some, arith, length,
  refl, get_elem?, set, get_elem?-set_self, get_elem?-set_other, sym, Bool-cases, inl, inr,
}
use odr.Prelude.Int.{
  ℤ, pos, negsuc, ◌≤ℤ◌, ◌<ℤ◌, eq_of_parts, ltb_ℤ, to_char, to_char-small, to_char-le,
}
use odr.Structs.{OdrPack, type_rreq}
use odr.Platform.{Platform}
use odr.Table.{get_index_from_ip}
use odr.Table.Valid.{InRange}
use odr.Node.{Node, latest_at, latest_put}
use odr.Odr.Common.{note_sender, is_self_dest}
use odr.Odr.Rreq.{forward_rreq, relay_rreq, process_rreq}
use odr.Odr.Frame.{forward_rreq-keeps}
use odr.Odr.Safe.{Slot, latest_at-Slot, latest_put-Slot}
use odr.Odr.{process_pack}

-- What was just written is what is read.
pub latest_at-put :
    (j v : ℤ) (l m : List ℤ) → latest_put j v l ≡ some m → latest_at j m ≡ some (to_char v)
unfolding latest_at latest_put
latest_at-put (pos i) v l m h = ground (arith, get_elem?-set_self l i (to_char v))
latest_at-put (negsuc i) v l m h = cc

pub latest_at-put_other :
    (i j v : ℤ) (l m : List ℤ) → j ≢ i → latest_put i v l ≡ some m → latest_at j m ≡ latest_at j l
unfolding latest_at latest_put
latest_at-put_other (pos i) (pos j) v l m d h =
    let wrote : set l i (to_char v) ≡ m = ground arith in
    ap (λ x. get_elem? x j) (sym wrote) ∙ get_elem?-set_other l i j (to_char v) (λ e. d (ap pos e))
latest_at-put_other (negsuc i) (pos j) v l m d h = cc
latest_at-put_other i (negsuc j) v l m d h = refl

get_elem?-All :
    (l : List ℤ) (i : ℕ) (x : ℤ) → All (λ y. y ≤ℤ pos 127) l → get_elem? l i ≡ some x → x ≤ℤ pos 127
get_elem?-All [] i x h e = cc
get_elem?-All (y ∷ l) zero x h e = ground arith
get_elem?-All (y ∷ l) (suc i) x h e = get_elem?-All l i x h.1 e

set-All :
    (l : List ℤ) (i : ℕ) (x : ℤ)
    → All (λ y. y ≤ℤ pos 127) l
    → x ≤ℤ pos 127
    → All (λ y. y ≤ℤ pos 127) (set l i x)
set-All [] i x h e = tt
set-All (y ∷ l) zero x h e = (e, h.1)
set-All (y ∷ l) (suc i) x h e = (h.0, set-All l i x h.1 e)

pub latest_at-char :
    (j : ℤ) (l : List ℤ) (x : ℤ) → All (λ y. y ≤ℤ pos 127) l → latest_at j l ≡ some x → x ≤ℤ pos 127
unfolding latest_at
latest_at-char (pos i) l x h e = get_elem?-All l i x h e
latest_at-char (negsuc i) l x h e = cc

pub latest_put-chars :
    (j v : ℤ) (l m : List ℤ)
    → All (λ y. y ≤ℤ pos 127) l
    → latest_put j v l ≡ some m
    → All (λ y. y ≤ℤ pos 127) m
unfolding latest_put
latest_put-chars (pos i) v l m h e =
    let wrote : set l i (to_char v) ≡ m = ground arith in
    subst (All (λ y. y ≤ℤ pos 127)) wrote (set-All l i (to_char v) h (to_char-le v))
latest_put-chars (negsuc i) v l m h e = cc

-- An RREQ within the hop limit, not yet answered, at a node that is not its destination.
pub record Relayed (p : Platform) (k : OdrPack) : Type 0 where
  pub is_rreq : k.type ≡ type_rreq
  pub in_range : InRange k
  pub unanswered : k.rreq.rrep_sent ≢ pos 1
  pub elsewhere : is_self_dest p k.dest_can_ip_str ≢ pos 1

module _ (p : Platform) where
  pub process_pack-relay :
      (k : OdrPack) (hw : List ℕ) (i : ℤ) (n : Node)
      → Relayed p k
      → process_pack p k hw i n
        ≡ relay_rreq p (is_self_dest p k.dest_can_ip_str) k i (note_sender p k hw i n)
  unfolding process_pack process_rreq
  process_pack-relay k hw i n c = ground (
    arith,
    eq_of_parts k.rreq.rrep_sent (pos 1),
    eq_of_parts (is_self_dest p k.dest_can_ip_str) (pos 1),
  )

  -- An RREQ whose id is not above the recorded one is not sent on.
  pub relay_old :
      (r : ℤ) (k : OdrPack) (i : ℤ) (n : Node) {x : ℤ}
      → latest_at (get_index_from_ip p k.src_can_ip_str) n.latest_rreq ≡ some x
      → k.rreq.broadcast_id ≤ℤ x
      → relay_rreq p r k i n ≡ some (r, n)
  unfolding relay_rreq
  relay_old r k i n {x} e h =
      let old : ltb_ℤ x k.rreq.broadcast_id ≡ false = ground arith in rw (e, relay_rreq) (rw old)

  -- One above it is.
  pub relay_new :
      (r : ℤ) (k : OdrPack) (i : ℤ) (n : Node) {x : ℤ} {l : List ℤ}
      → latest_at (get_index_from_ip p k.src_can_ip_str) n.latest_rreq ≡ some x
      → latest_put (get_index_from_ip p k.src_can_ip_str) k.rreq.broadcast_id n.latest_rreq ≡ some l
      → x <ℤ k.rreq.broadcast_id
      → relay_rreq p r k i n ≡ some (forward_rreq p k i (record n { latest_rreq = l }))
  unfolding relay_rreq
  relay_new r k i n {x} e f h =
      let new : ltb_ℤ x k.rreq.broadcast_id ≡ true = ground arith in rw (e, f, relay_rreq) (rw new)

  -- The slot of the source after an RREQ with an id of 0 to 127 was relayed.
  pub relay_records :
      (r : ℤ) (k : OdrPack) (i : ℤ) (n : Node)
      → pos 0 ≤ℤ k.rreq.broadcast_id
      → k.rreq.broadcast_id ≤ℤ pos 127
      → Slot (get_index_from_ip p k.src_can_ip_str)
      → length n.latest_rreq ≡ 11
      → (s : ℤ) × (m : Node) × (x : ℤ) × (relay_rreq p r k i n ≡ some (s, m))
        × (latest_at (get_index_from_ip p k.src_can_ip_str) m.latest_rreq ≡ some x)
        × (k.rreq.broadcast_id ≤ℤ x)
  relay_records r k i n lo hi slot slots =
      let j = get_index_from_ip p k.src_can_ip_str in
      let (x, e) = latest_at-Slot j n.latest_rreq slot slots in
      let (l, f) = latest_put-Slot j k.rreq.broadcast_id n.latest_rreq slot slots in
      let m = forward_rreq p k i (record n { latest_rreq = l }) in
      elim (Bool-cases (ltb_ℤ x k.rreq.broadcast_id)) [
        | inl new ↦ (
          m.0,
          m.1,
          k.rreq.broadcast_id,
          relay_new r k i n e f (ground arith),
          rw ((forward_rreq-keeps p k i (record n { latest_rreq = l })).1) (
              latest_at-put j k.rreq.broadcast_id n.latest_rreq l f
              ∙ ap some (to_char-small k.rreq.broadcast_id lo hi)),
          omega arith,
        )
        | inr old ↦ (r, n, x, relay_old r k i n e (ground arith), e, ground arith)
      ]

  -- Of two RREQs of one source and one id from 0 to 127, whatever neighbours and hop counts they
  -- come with, a node that is not their destination sends on at most the first: the second only
  -- updates the routing table. Both are unanswered and within the hop limit, the source has a
  -- slot, and `latest_rreq` has its eleven.
  pub relay_once :
      (k k' : OdrPack) (hw hw' : List ℕ) (i i' : ℤ) (n : Node)
      → Relayed p k
      → Relayed p k'
      → get_index_from_ip p k'.src_can_ip_str ≡ get_index_from_ip p k.src_can_ip_str
      → k'.rreq.broadcast_id ≡ k.rreq.broadcast_id
      → pos 0 ≤ℤ k.rreq.broadcast_id
      → k.rreq.broadcast_id ≤ℤ pos 127
      → Slot (get_index_from_ip p k.src_can_ip_str)
      → length n.latest_rreq ≡ 11
      → (s : ℤ) × (m : Node) × (process_pack p k hw i n ≡ some (s, m))
        × (process_pack p k' hw' i' m
            ≡ some (is_self_dest p k'.dest_can_ip_str, note_sender p k' hw' i' m))
  unfolding note_sender
  relay_once k k' hw hw' i i' n c c' src id lo hi slot slots =
      let n' = note_sender p k hw i n in
      let (s, m, x, e, f, g) =
        relay_records (is_self_dest p k.dest_can_ip_str) k i n' lo hi slot slots in
      (
        s,
        m,
        process_pack-relay k hw i n c ∙ e,
        process_pack-relay k' hw' i' m c'
            ∙ relay_old (is_self_dest p k'.dest_can_ip_str) k' i' (note_sender p k' hw' i' m)
                {x = x} (rw src f) (rw id g),
      )
