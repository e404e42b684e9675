-- ===== src/Main/Asks.antt =====
-- What a client's request adds to the messages that were sent.
use odr.Prelude.{
  ℕ, ◌≡◌, length, ap, sym, subst, ◌∙◌, ◌&&◌, List, ◌∷◌, some, arith, Bool-cases, Option-cases, inl,
  inr,
}
use odr.Prelude.Int.{pos, ◌+ℤ◌, ◌==ℤ◌}
use odr.Structs.{OdrPack, OdrReq, Out, minus_one}
use odr.Platform.{Platform}
use odr.Table.{get_index_from_ip, entry_exists_for_src}
use odr.Link.Sent.{Carries, broadcast-sent, payload-sent}
use odr.Link.{broadcast_ll_msg, send_payload}
use odr.Node.{Node, latest_put}
use odr.Odr.Valid.{latest_put-length}
use odr.Main.{
  read_request, payload_packet, rreq_packet, get_can_ip, request_dest, addressed, next_rreq,
  handle_request,
}

module _ (p : Platform) (addr : List ℕ) (r : OdrReq) (n m : Node)
    (h : handle_request p addr r n ≡ some m) where
  -- The packet that is kept for the next request has the hop counts of a new RREQ.
  pub handle_request-source :
      (m.source_packet.rreq.hop ≡ pos 1) × (m.source_packet.rrep.hop ≡ minus_one)
  unfolding handle_request next_rreq rreq_packet
  handle_request-source = ground arith

  -- It has the running number for its id.
  pub handle_request-id : m.source_packet.rreq.broadcast_id ≡ n.running_broadcast_no
  unfolding handle_request next_rreq rreq_packet read_request
  handle_request-id = ground arith

  -- The running number goes up by one.
  pub handle_request-running : m.running_broadcast_no ≡ n.running_broadcast_no +ℤ pos 1
  unfolding handle_request next_rreq read_request
  handle_request-running = ground arith

  -- The client's address is the one that the request came from.
  pub handle_request-client : m.al_client_addr ≡ addr
  unfolding handle_request next_rreq read_request
  handle_request-client = ground arith

  -- The node's own slot gets the next number.
  pub handle_request-latest :
      latest_put
        (get_index_from_ip p (get_can_ip p))
        (n.running_broadcast_no +ℤ pos 1)
        n.latest_rreq
      ≡ some m.latest_rreq
  unfolding handle_request next_rreq read_request
  handle_request-latest =
      let j = get_index_from_ip p (get_can_ip p) in
      let id = n.running_broadcast_no +ℤ pos 1 in
      elim (Option-cases (latest_put j id n.latest_rreq)) [
        | inl out ↦ absurd (ground arith)
        | inr (l, e) ↦ let same : m.latest_rreq ≡ l = ground arith in e ∙ ap some (sym same)
      ]

  pub handle_request-slots : length m.latest_rreq ≡ length n.latest_rreq
  handle_request-slots =
      latest_put-length (get_index_from_ip p (get_can_ip p)) (n.running_broadcast_no +ℤ pos 1)
        n.latest_rreq m.latest_rreq handle_request-latest

module _ (p : Platform) (Q : OdrPack → Type 0) (C : List ℕ → Type 0) (S : List Out → Type 0)
    (closed : (o : Out) (s : List Out) → Carries Q C o → S s → S (o ∷ s)) (addr : List ℕ)
    (r : OdrReq) (n : Node) where
  -- Either the payload goes out or the RREQ.
  pub handle_request-sent :
      Q (payload_packet (addressed p (read_request addr r n)))
      → Q (rreq_packet n.running_broadcast_no (addressed p (read_request addr r n)))
      → S n.sent
      → (m : Node) → handle_request p addr r n ≡ some m
      → S m.sent
  unfolding handle_request read_request next_rreq
  handle_request-sent q q' s m h =
      let k = addressed p (read_request addr r n) in
      let key = get_index_from_ip p (request_dest p (read_request addr r n)) in
      let id = n.running_broadcast_no +ℤ pos 1 in
      elim (Option-cases (latest_put (get_index_from_ip p (get_can_ip p)) id n.latest_rreq)) [
        | inl out ↦ absurd (ground arith)
        | inr (l, e) ↦
            elim (Bool-cases
              (entry_exists_for_src key n.rtbl.entries && r.forced_discovery ==ℤ pos 0)) [
                | inl go ↦
                    let out =
                      send_payload p n.if_info_list n.rtbl.entries (payload_packet k) key n.sent in
                    let same : m.sent ≡ out.1 = ground arith in
                    subst S (sym same) (
                      payload-sent Q C S closed p (payload_packet k) q n.if_info_list n.rtbl.entries
                        key n.sent s)
                | inr stay ↦
                    let u = rreq_packet n.running_broadcast_no k in
                    let same : m.sent ≡ (broadcast_ll_msg p n.if_info_list u minus_one n.sent).1 =
                      ground arith in
                    subst S (sym same)
                      (broadcast-sent Q C S closed p u q' minus_one n.if_info_list n.sent s)
              ]
      ]
