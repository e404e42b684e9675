-- ===== src/Main/Silent.antt =====
-- Which frames make a node send RREQs of one source.
use odr.Prelude.{
  ℕ, ◌+◌, ◌≡◌, ◌∙◌, ap, refl, Bool, true, false, ◌&&◌, List, [], ◌∷◌, some, arith, ltb, Bool-cases,
  inl, inr, if◌then◌else◌,
}
use odr.Prelude.Int.{ℤ, pos, ◌==ℤ◌, ==ℤ_iff, ltb_ℤ}
use odr.Structs.{OdrPack, Out, to_link, to_client, to_server, type_rreq}
use odr.Platform.{Platform}
use odr.Table.{Rtbl, get_index_from_ip}
use odr.Table.Valid.{InRange}
use odr.Link.Sent.{Carries, Anyone}
use odr.Node.{Node, latest_at}
use odr.Odr.Common.{note_sender, is_self_dest}
use odr.Odr.Rreq.{dest_rrep, count_hop, known_rrep, answered_rreq, process_rreq}
use odr.Odr.Rrep.{request_data, relayed_rrep}
use odr.Odr.Data.{reply_data}
use odr.Odr.Cases.{Ensures, not_over, process_pack-cases}
use odr.Odr.Emits.{Emits, answer_rreq-sent}
use odr.Odr.Flood.{relay_old}
use odr.Odr.Spread.{process_pack-sent, process_rrep-sent, process_data-sent}
use odr.Odr.{process_pack}
use odr.Main.Slots.{admits}

module _ (p : Platform) (j : ℤ) (wanted : ℤ → Bool) where
  -- An RREQ of the slot `j` with a wanted id.
  abbrev pub is_copy : OdrPack → Bool
  is_copy k =
      get_index_from_ip p k.src_can_ip_str ==ℤ j
      && (wanted k.rreq.broadcast_id && k.type ==ℤ type_rreq)

  abbrev pub is_copy_out : Out → Bool
  is_copy_out (to_link f) = is_copy f.packet
  is_copy_out (to_client addr r) = false
  is_copy_out (to_server m) = false

  -- How many of the messages are frames with such an RREQ.
  abbrev pub copies : List Out → ℕ
  copies [] = 0
  copies (o ∷ s) = (if is_copy_out o then 1 else 0) + copies s

  -- The second state has sent more of them.
  abbrev pub sent_more : Node → Node → Bool
  sent_more n m = ltb (copies n.sent) (copies m.sent)

  abbrev NoCopy : OdrPack → Type 0
  NoCopy k = is_copy k ≡ false

  abbrev Same : ℕ → List Out → Type 0
  Same c s = copies s ≡ c

  closed : (c : ℕ) (o : Out) (s : List Out) → Carries NoCopy Anyone o → Same c s → Same c (o ∷ s)
  closed c (to_link f) s q h = rw (q, h) (omega arith)
  closed c (to_client addr r) s q h = ground arith
  closed c (to_server m) s q h = ground arith

  -- What is set off by a packet of another source, or with another id.
  Emits-NoCopy :
      (k : OdrPack) (t : Rtbl)
      → (get_index_from_ip p k.src_can_ip_str ==ℤ j && wanted k.rreq.broadcast_id) ≡ false
      → Emits NoCopy k t
  unfolding dest_rrep count_hop known_rrep answered_rreq request_data relayed_rrep reply_data
  Emits-NoCopy k t h = record {
    itself = ground arith;
    counted = ground arith;
    answer = ground arith;
    known = λ j e g. ground arith;
    marked = λ j e g. ground arith;
    relayed = ground arith;
    request = λ n. ground arith;
    reply = λ b. ground arith;
  }

  module _ (k : OdrPack) (hw : List ℕ) (i : ℤ) (n : Node) (x : ℤ)
      (own : (get_index_from_ip p k.src_can_ip_str ==ℤ j) ≡ true)
      (at : latest_at j n.latest_rreq ≡ some x) (stays : admits p j k n ≡ false) where
    abbrev Quiet : Node → Type 0
    Quiet m = Same (copies n.sent) m.sent

    -- An RREQ of the slot that is not admitted is answered or dropped.
    rreq-Quiet : InRange k → k.type ≡ type_rreq → Ensures Quiet (process_rreq p k hw i n)
    unfolding process_rreq note_sender dest_rrep
    rreq-Quiet r t =
        let c = copies n.sent in
        let m = note_sender p k hw i n in
        let ret = is_self_dest p k.dest_can_ip_str in
        let key = (==ℤ_iff (get_index_from_ip p k.src_can_ip_str) j).0 own in
        elim (Bool-cases (k.rreq.rrep_sent ==ℤ pos 1)) [
          | inl answered ↦ rw (answered, process_rreq) refl
          | inr unanswered ↦
              rw (unanswered, process_rreq)
                (elim (Bool-cases (ret ==ℤ pos 1)) [
                  | inl here ↦
                      rw (here, process_rreq)
                        (answer_rreq-sent p NoCopy Anyone (Same c) (closed c) k m (ground arith)
                          refl)
                  | inr far ↦
                      rw (far, process_rreq)
                        (elim (Bool-cases (ltb_ℤ x k.rreq.broadcast_id)) [
                          | inl new ↦
                              let yes : admits p j k n ≡ true =
                                rw (not_over k r, t, unanswered, far, own, at, new) refl in
                              absurd (ground (arith, yes))
                          | inr old ↦
                              rw
                                (relay_old p ret k i m {x = x}
                                  (ap (λ s. latest_at s n.latest_rreq) key ∙ at) (ground arith))
                                refl
                        ])
                ])
        ]

    own-Quiet : Ensures Quiet (process_pack p k hw i n)
    unfolding request_data relayed_rrep reply_data
    own-Quiet =
        let c = copies n.sent in
        process_pack-cases p k hw i n (Ensures Quiet) (λ over. refl) rreq-Quiet
          (λ r t.
            process_rrep-sent p NoCopy Anyone (Same c) (closed c) k hw i n (λ m. ground arith)
              (ground (arith, t)) refl)
          (λ r t.
            process_data-sent p NoCopy Anyone (Same c) (closed c) k hw i n (ground (arith, t))
              (λ b. ground (arith, t)) tt refl)
          (λ a b c. refl)

  -- A packet that is not admitted, or has another id, makes the node send no such RREQ.
  pub process_pack-silent :
      (k : OdrPack) (hw : List ℕ) (i : ℤ) (n : Node) (x : ℤ)
      → latest_at j n.latest_rreq ≡ some x
      → (admits p j k n && wanted k.rreq.broadcast_id) ≡ false
      → Ensures (λ m. copies m.sent ≡ copies n.sent) (process_pack p k hw i n)
  process_pack-silent k hw i n x at stays =
      let c = copies n.sent in
      let others =
        λ (h : (get_index_from_ip p k.src_can_ip_str ==ℤ j && wanted k.rreq.broadcast_id) ≡ false).
          process_pack-sent p NoCopy Anyone (Same c) (closed c) k hw i n (λ r. Emits-NoCopy k _ h)
            tt refl in
      elim (Bool-cases (get_index_from_ip p k.src_can_ip_str ==ℤ j)) [
        | inr other ↦ others (rw other refl)
        | inl own ↦ elim (Bool-cases (wanted k.rreq.broadcast_id)) [
          | inr unwanted ↦ others (rw (own, unwanted) refl)
          | inl meant ↦ own-Quiet k hw i n x own at (ground (arith, meant))
        ]
      ]
