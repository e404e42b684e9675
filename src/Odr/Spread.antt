-- ===== src/Odr/Spread.antt =====
-- What holds of the messages that a node has sent, and stays true when it sends what a packet can set
-- off, holds after `process_pack`.
use odr.Prelude.{ℕ, List, ◌∷◌, Bool-cases, inl, inr}
use odr.Prelude.Int.{ℤ, pos, ◌==ℤ◌}
use odr.Structs.{OdrPack, Out}
use odr.Platform.{Platform}
use odr.Table.{update_rtbl_entry}
use odr.Table.Valid.{InRange}
use odr.Link.Sent.{Carries}
use odr.Node.{Node}
use odr.Odr.Common.{note_sender, is_self_dest, is_self_src}
use odr.Odr.Rreq.{process_rreq}
use odr.Odr.Rrep.{request_data, relayed_rrep, process_rrep}
use odr.Odr.Data.{reply_data, process_data}
use odr.Odr.Cases.{Ensures, process_pack-cases}
use odr.Odr.Emits.{
  Emits, answer_rreq-sent, relay_rreq-sent, finish_discovery-sent, relay_rrep-sent,
  deliver_reply-sent, ask_server-sent, relay_data-sent,
}
use odr.Odr.{process_pack}

module _ (p : Platform) (Q : OdrPack → Type 0) (C : List ℕ → Type 0) (S : List Out → Type 0)
    (closed : (o : Out) (s : List Out) → Carries Q C o → S s → S (o ∷ s)) (k : OdrPack)
    (hw : List ℕ) (i : ℤ) (n : Node) where
  process_rreq-sent :
      Emits Q k (update_rtbl_entry p k hw i n.rtbl)
      → S n.sent
      → Ensures (λ m. S m.sent) (process_rreq p k hw i n)
  unfolding process_rreq note_sender
  process_rreq-sent q h =
      let m = note_sender p k hw i n in
      elim (Bool-cases (k.rreq.rrep_sent ==ℤ pos 1)) [
        | inl answered ↦ rw (answered, process_rreq) h
        | inr unanswered ↦
            rw (unanswered, process_rreq)
              (elim (Bool-cases (is_self_dest p k.dest_can_ip_str ==ℤ pos 1)) [
                | inl here ↦
                    rw (here, process_rreq) (answer_rreq-sent p Q C S closed k m q.answer h)
                | inr far ↦
                    rw (far, process_rreq)
                      (relay_rreq-sent p Q C S closed k (is_self_dest p k.dest_can_ip_str) i m q h)
              ])
      ]

  pub process_rrep-sent :
      ((m : Node) → Q (request_data k m))
      → Q (relayed_rrep k)
      → S n.sent
      → S (process_rrep p k hw i n).1.sent
  unfolding process_rrep note_sender
  process_rrep-sent request relayed h =
      let m = note_sender p k hw i n in
      let ret = is_self_src p k.src_can_ip_str in
      elim (Bool-cases (ret ==ℤ pos 1)) [
        | inl here ↦
            rw (here, process_rrep) (finish_discovery-sent p Q C S closed k ret m (request m) h)
        | inr far ↦ rw (far, process_rrep) (relay_rrep-sent p Q C S closed k ret m relayed h)
      ]

  pub process_data-sent :
      Q k
      → ((bytes : List ℕ) → Q (reply_data k bytes))
      → C n.al_client_addr
      → S n.sent
      → S (process_data p k hw i n).1.sent
  unfolding process_data note_sender
  process_data-sent itself reply c h =
      let m = note_sender p k hw i n in
      elim (Bool-cases (is_self_src p k.src_can_ip_str ==ℤ pos 0)) [
        | inr here ↦ rw (here, process_data) (deliver_reply-sent p Q C S closed k m c h)
        | inl away ↦
            rw (away, process_data)
              (elim (Bool-cases (is_self_dest p k.dest_can_ip_str ==ℤ pos 0)) [
                | inr here ↦ rw (here, process_data) (ask_server-sent p Q C S closed k m reply h)
                | inl far ↦ rw (far, process_data) (relay_data-sent p Q C S closed k m itself h)
              ])
      ]

  pub process_pack-sent :
      (InRange k → Emits Q k (update_rtbl_entry p k hw i n.rtbl))
      → C n.al_client_addr
      → S n.sent
      → Ensures (λ m. S m.sent) (process_pack p k hw i n)
  process_pack-sent q c h =
      process_pack-cases p k hw i n (Ensures (λ m. S m.sent)) (λ over. h)
        (λ r t. process_rreq-sent (q r) h) (λ r t. process_rrep-sent (q r).request (q r).relayed h)
        (λ r t. process_data-sent (q r).itself (q r).reply c h) (λ a b c. h)
