-- ===== src/Odr/Kept.antt =====
-- What `process_pack` keeps: whatever does not hang on the messages that were sent, holds once the sender
-- is noted, and stays true when the id of a new RREQ is recorded.
use odr.Prelude.{ℕ, ◌≡◌, ◌≢◌, true, List, some, arith, Bool-cases, Option-cases, inl, inr}
use odr.Prelude.Int.{ℤ, pos, ltb_ℤ, ◌<ℤ◌, ◌==ℤ◌}
use odr.Structs.{OdrPack, type_rreq, type_rrep, type_data}
use odr.Platform.{Platform}
use odr.Table.{get_index_from_ip}
use odr.Table.Valid.{InRange}
use odr.Node.{Node, latest_at, latest_put}
use odr.Odr.Common.{note_sender, is_self_dest, is_self_src}
use odr.Odr.Rreq.{relay_rreq, process_rreq}
use odr.Odr.Rrep.{process_rrep}
use odr.Odr.Data.{process_data}
use odr.Odr.Frame.{
  SameTables, answer_rreq-keeps, forward_rreq-keeps, finish_discovery-keeps, relay_rrep-keeps,
  deliver_reply-keeps, ask_server-keeps, relay_data-keeps,
}
use odr.Odr.Cases.{Ensures, over_limit, process_pack-cases}
use odr.Odr.{process_pack}

-- The property stays true when the id of `k` is recorded as new.
abbrev pub Records : Platform → OdrPack → (Node → Type 0) → Type 0
Records p k P =
    (n : Node) (x : ℤ) (l : List ℤ)
    → latest_at (get_index_from_ip p k.src_can_ip_str) n.latest_rreq ≡ some x
    → x <ℤ k.rreq.broadcast_id
    → latest_put (get_index_from_ip p k.src_can_ip_str) k.rreq.broadcast_id n.latest_rreq ≡ some l
    → P n
    → P (record n { latest_rreq = l })

module _ (p : Platform) (P : Node → Type 0) (respects : (n m : Node) → SameTables n m → P n → P m)
    (k : OdrPack) (records : Records p k P) where
  relay_rreq-kept : (r i : ℤ) (n : Node) → P n → Ensures P (relay_rreq p r k i n)
  unfolding relay_rreq
  relay_rreq-kept r i n h =
      let j = get_index_from_ip p k.src_can_ip_str in
      elim (Option-cases (latest_at j n.latest_rreq)) [
        | inl out ↦ rw (out, relay_rreq) tt
        | inr (x, e) ↦
            rw (e, relay_rreq)
              (elim (Bool-cases (ltb_ℤ x k.rreq.broadcast_id)) [
                | inr old ↦ rw (old, relay_rreq) h
                | inl new ↦
                    rw (new, relay_rreq)
                      (elim (Option-cases (latest_put j k.rreq.broadcast_id n.latest_rreq)) [
                        | inl out ↦ rw (out, relay_rreq) tt
                        | inr (l, f) ↦
                            let u = record n { latest_rreq = l } in
                            rw (f, relay_rreq)
                              (respects u _ (forward_rreq-keeps p k i u)
                                (records n x l e (ground arith) f h))
                      ])
              ])
      ]

  module _ (hw : List ℕ) (i : ℤ) (n : Node) where
    noted : Node
    noted = note_sender p k hw i n

    process_rreq-kept : P noted → Ensures P (process_rreq p k hw i n)
    unfolding process_rreq noted
    process_rreq-kept h = elim (Bool-cases (k.rreq.rrep_sent ==ℤ pos 1)) [
      | inl answered ↦ rw (answered, process_rreq) h
      | inr unanswered ↦
          rw (unanswered, process_rreq)
            (elim (Bool-cases (is_self_dest p k.dest_can_ip_str ==ℤ pos 1)) [
              | inl here ↦
                  rw (here, process_rreq) (respects noted _ (answer_rreq-keeps p k noted) h)
              | inr far ↦
                  rw (far, process_rreq)
                    (relay_rreq-kept (is_self_dest p k.dest_can_ip_str) i noted h)
            ])
    ]

    process_rrep-kept : P noted → P (process_rrep p k hw i n).1
    unfolding process_rrep noted
    process_rrep-kept h =
        let ret = is_self_src p k.src_can_ip_str in
        elim (Bool-cases (ret ==ℤ pos 1)) [
          | inl here ↦
              rw (here, process_rrep) (respects noted _ (finish_discovery-keeps p ret k noted) h)
          | inr far ↦ rw (far, process_rrep) (respects noted _ (relay_rrep-keeps p ret k noted) h)
        ]

    process_data-kept : P noted → P (process_data p k hw i n).1
    unfolding process_data noted
    process_data-kept h = elim (Bool-cases (is_self_src p k.src_can_ip_str ==ℤ pos 0)) [
      | inr here ↦ rw (here, process_data) (respects noted _ (deliver_reply-keeps p k noted) h)
      | inl away ↦
          rw (away, process_data)
            (elim (Bool-cases (is_self_dest p k.dest_can_ip_str ==ℤ pos 0)) [
              | inr here ↦ rw (here, process_data) (respects noted _ (ask_server-keeps p k noted) h)
              | inl far ↦ rw (far, process_data) (respects noted _ (relay_data-keeps p k noted) h)
            ])
    ]

    -- Before a packet that nobody handles, and once the sender of another is noted.
    pub process_pack-exact :
        (over_limit k ≡ true → P n)
        → (k.type ≢ type_rreq → k.type ≢ type_rrep → k.type ≢ type_data → P n)
        → (InRange k → P (note_sender p k hw i n))
        → Ensures P (process_pack p k hw i n)
    unfolding noted
    process_pack-exact over other g =
        process_pack-cases p k hw i n (Ensures P) over (λ r t. process_rreq-kept (g r))
          (λ r t. process_rrep-kept (g r)) (λ r t. process_data-kept (g r)) other

    -- Before a packet, and once its sender is noted.
    pub process_pack-kept :
        P n → (InRange k → P (note_sender p k hw i n)) → Ensures P (process_pack p k hw i n)
    process_pack-kept h g = process_pack-exact (λ over. h) (λ a b c. h) g
