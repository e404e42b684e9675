-- ===== src/Odr/Faults.antt =====
-- When `process_pack` accesses `latest_rreq` out of its bounds.
use odr.Prelude.{
  ℕ, zero, suc, ◌≤◌, ◌≡◌, ◌≢◌, ◌↔◌, refl, sym, ◌∙◌, List, [], ◌∷◌, none, arith, length, Bool-cases,
  inl, inr, get_elem?,
}
use odr.Prelude.Int.{ℤ, pos, negsuc, ltb_ℤ}
use odr.Structs.{OdrPack}
use odr.Platform.{Platform}
use odr.Table.{get_index_from_ip}
use odr.Node.{Node, latest_at}
use odr.Odr.Common.{is_self_dest, note_sender}
use odr.Odr.Rreq.{relay_rreq, process_rreq}
use odr.Odr.Cases.{process_pack-cases}
use odr.Odr.Safe.{Slot, latest_at-Slot, latest_put-Slot}
use odr.Odr.Flood.{Relayed, process_pack-relay}
use odr.Odr.{process_pack}

get-out_of_range : (l : List ℤ) (i : ℕ) → length l ≤ i → get_elem? l i ≡ none
get-out_of_range [] i h = refl
get-out_of_range (x ∷ l) zero h = absurd (omega arith)
get-out_of_range (x ∷ l) (suc i) h = get-out_of_range l i (omega arith)

latest_at-outside : (j : ℤ) (l : List ℤ) → ¬ (Slot j) → length l ≡ 11 → latest_at j l ≡ none
unfolding latest_at
latest_at-outside (pos i) l s h = get-out_of_range l i (grind arith)
latest_at-outside (negsuc i) l s h = refl

module _ (p : Platform) where
  relay_rreq-some :
      (r : ℤ) (k : OdrPack) (i : ℤ) (n : Node)
      → Slot (get_index_from_ip p k.src_can_ip_str)
      → length n.latest_rreq ≡ 11
      → relay_rreq p r k i n ≢ none
  unfolding relay_rreq
  relay_rreq-some r k i n s h =
      let j = get_index_from_ip p k.src_can_ip_str in
      let (x, e) = latest_at-Slot j n.latest_rreq s h in
      let (m, f) = latest_put-Slot j k.rreq.broadcast_id n.latest_rreq s h in
      rw (e, f, relay_rreq)
        (elim (Bool-cases (ltb_ℤ x k.rreq.broadcast_id)) [
          | inl new ↦ rw new (λ q. cc)
          | inr old ↦ rw old (λ q. cc)
        ])

  relay_rreq-none :
      (r : ℤ) (k : OdrPack) (i : ℤ) (n : Node)
      → ¬ (Slot (get_index_from_ip p k.src_can_ip_str))
      → length n.latest_rreq ≡ 11
      → relay_rreq p r k i n ≡ none
  unfolding relay_rreq
  relay_rreq-none r k i n s h =
      rw (latest_at-outside (get_index_from_ip p k.src_can_ip_str) n.latest_rreq s h, relay_rreq)

  module _ (k : OdrPack) (hw : List ℕ) (i : ℤ) (n : Node) where
    rreq_none :
        process_rreq p k hw i n ≡ none
        → (k.rreq.rrep_sent ≢ pos 1) × (is_self_dest p k.dest_can_ip_str ≢ pos 1)
    unfolding process_rreq
    rreq_none h = (λ a. ground arith, λ a. ground arith)

    none-Relayed : process_pack p k hw i n ≡ none → Relayed p k
    none-Relayed =
        process_pack-cases p k hw i n (λ o. o ≡ none → Relayed p k) (λ over h. cc)
          (λ r t h.
            let (a, b) = rreq_none h in
            record { is_rreq = t; in_range = r; unanswered = a; elsewhere = b })
          (λ r t h. cc) (λ r t h. cc) (λ a b c h. cc)

    -- With eleven slots in `latest_rreq`, a packet makes process_pack reach out of its bounds
    -- exactly if it is an RREQ that is within the hop limit, not yet answered and for another
    -- node, and whose source has no slot.
    pub process_pack-none :
        length n.latest_rreq ≡ 11
        → (process_pack p k hw i n ≡ none)
          ↔ (Relayed p k × (¬ (Slot (get_index_from_ip p k.src_can_ip_str))))
    unfolding note_sender
    process_pack-none slots = (
      λ h.
          let c = none-Relayed h in
          (
            c,
            λ s.
                relay_rreq-some (is_self_dest p k.dest_can_ip_str) k i (note_sender p k hw i n) s
                  slots (sym (process_pack-relay p k hw i n c) ∙ h),
          ),
      λ c. rw (process_pack-relay p k hw i n c.0) (
          relay_rreq-none (is_self_dest p k.dest_can_ip_str) k i (note_sender p k hw i n) c.1
            slots),
    )
