-- ===== src/Main/Request.antt =====
-- A client's request.
use odr.Prelude.{
  ℕ, ◌≡◌, ◌≢◌, ◌⊎◌, refl, ap, ◌∙◌, true, false, ◌&&◌, List, none, some, arith, length, Bool-cases,
  inl, inr,
}
use odr.Prelude.Int.{ℤ, pos, ◌≤ℤ◌, ◌<ℤ◌, ◌+ℤ◌, ◌==ℤ◌, eq_of_parts, to_char, to_char-small, int_laws}
use odr.Structs.{OdrPack, OdrReq, Entry, Out, minus_one}
use odr.Platform.{Platform}
use odr.Table.{get_index_from_ip, entry_exists_for_src}
use odr.Table.Routes.{route}
use odr.Table.Walk.{exists-first}
use odr.Link.{broadcast_ll_msg, send_payload}
use odr.Link.Frames.{
  push_all, flood, unicast, broadcast-frames, payload-frames, to_entry, send-frames,
}
use odr.Node.{Node, latest_at, latest_put}
use odr.Odr.Common.{note_sender, is_self_dest}
use odr.Odr.Safe.{Slot, latest_put-Slot}
use odr.Odr.Valid.{IsValid, latest_put-length}
use odr.Odr.Flood.{Relayed, latest_at-put, process_pack-relay, relay_old}
use odr.Odr.{process_pack}
use odr.Main.{
  read_request, payload_packet, rreq_packet, get_can_ip, request_dest, addressed, next_rreq,
  handle_request,
}

module _ (p : Platform) where
  -- The next RREQ: a packet with the running number, which goes up, and its successor in the own slot.
  next_rreq-total :
      (k : OdrPack) (n : Node)
      → Slot (get_index_from_ip p (get_can_ip p))
      → length n.latest_rreq ≡ 11
      → (l : List ℤ) × (latest_put
            (get_index_from_ip p (get_can_ip p))
            (n.running_broadcast_no +ℤ pos 1)
            n.latest_rreq
          ≡ some l)
        × (next_rreq p k n
            ≡ some (record n {
              source_packet = rreq_packet n.running_broadcast_no k;
              running_broadcast_no = n.running_broadcast_no +ℤ pos 1;
              latest_rreq = l;
            }))
  unfolding next_rreq
  next_rreq-total k n s h =
      let (l, e) =
        latest_put-Slot (get_index_from_ip p (get_can_ip p)) (n.running_broadcast_no +ℤ pos 1)
          n.latest_rreq s h in
      (l, e, rw (e, next_rreq))

  module _ (addr : List ℕ) (r : OdrReq) (n : Node) where
    -- The node and the packet once the request is read, and the key of its destination.
    abbrev pub asked : Node
    asked = read_request addr r n

    abbrev pub packet : OdrPack
    packet = addressed p asked

    abbrev pub dest_key : ℤ
    dest_key = get_index_from_ip p (request_dest p asked)

    -- A client's request for a node to which a route is known, without forced discovery, goes out
    -- as a payload to the next hop, and nothing else is sent. The state is valid, and the node
    -- has a slot of its own.
    pub request_known :
        (e : Entry)
        → IsValid n
        → Slot (get_index_from_ip p (get_can_ip p))
        → route dest_key n.rtbl ≡ some e
        → r.forced_discovery ≡ pos 0
        → (m : Node) × (handle_request p addr r n ≡ some m)
          × (m.sent
              ≡ push_all
                  (unicast (payload_packet packet) e.next_hop_hwaddr e.if_no n.if_info_list)
                  n.sent)
    unfolding handle_request read_request
    request_known e v s h f =
        let k = payload_packet packet in
        let out = send_payload p n.if_info_list n.rtbl.entries k dest_key n.sent in
        let (l, a, b) = next_rreq-total k (record asked { sent = out.1 }) s v.slots in
        let go : (entry_exists_for_src dest_key n.rtbl.entries && r.forced_discovery ==ℤ pos 0)
            ≡ true =
          ground (arith, exists-first dest_key n.rtbl.entries) in
        (
          record asked {
            source_packet = rreq_packet n.running_broadcast_no k;
            running_broadcast_no = n.running_broadcast_no +ℤ pos 1;
            latest_rreq = l;
            sent = out.1;
          },
          rw (go, handle_request) b,
          ap (λ (x : ℤ × List Out). x.1)
                (payload-frames p n.if_info_list k dest_key n.rtbl.entries n.sent v.table.distinct
                  ∙ ap (to_entry p n.if_info_list k n.sent) h)
              ∙ send-frames p k e.next_hop_hwaddr e.if_no n.if_info_list n.sent,
        )

    -- A client's request without a route, or under forced discovery, sends one RREQ of hop count
    -- 1 with the running number through every interface, and nothing else. The running number
    -- goes up, the node's own slot holds its new value as a char, and the routing table stays.
    -- The state is valid, and the node has a slot of its own.
    pub request_unknown :
        IsValid n
        → Slot (get_index_from_ip p (get_can_ip p))
        → (route dest_key n.rtbl ≡ none) ⊎ (r.forced_discovery ≢ pos 0)
        → (m : Node) × (handle_request p addr r n ≡ some m)
          × (m.sent
              ≡ push_all
                  (flood (rreq_packet n.running_broadcast_no packet) minus_one n.if_info_list)
                  n.sent)
          × (m.running_broadcast_no ≡ n.running_broadcast_no +ℤ pos 1)
          × (latest_at (get_index_from_ip p (get_can_ip p)) m.latest_rreq
              ≡ some (to_char (n.running_broadcast_no +ℤ pos 1)))
          × (m.rtbl ≡ n.rtbl)
    unfolding handle_request read_request
    request_unknown v s h =
        let (l, a, b) = next_rreq-total packet asked s v.slots in
        let stay : (entry_exists_for_src dest_key n.rtbl.entries && r.forced_discovery ==ℤ pos 0)
            ≡ false =
          ground
            (arith, exists-first dest_key n.rtbl.entries, eq_of_parts r.forced_discovery (pos 0)) in
        let q = rreq_packet n.running_broadcast_no packet in
        (
          record asked {
            source_packet = q;
            running_broadcast_no = n.running_broadcast_no +ℤ pos 1;
            latest_rreq = l;
            sent = (broadcast_ll_msg p n.if_info_list q minus_one n.sent).1;
          },
          rw (stay, handle_request) (rw (b, handle_request)),
          broadcast-frames p q minus_one n.if_info_list n.sent,
          refl,
          latest_at-put (get_index_from_ip p (get_can_ip p)) (n.running_broadcast_no +ℤ pos 1)
              n.latest_rreq l a,
          refl,
        )

    -- After a client's request without a route, or under forced discovery, the node's own RREQ is
    -- not sent on when a neighbour broadcasts it back within the hop limit, if its number is from
    -- 0 to 126. The state is valid, the node has a slot of its own, and it is not the
    -- destination.
    pub request_echo :
        (k : OdrPack) (hw : List ℕ) (i : ℤ)
        → IsValid n
        → Slot (get_index_from_ip p (get_can_ip p))
        → (route dest_key n.rtbl ≡ none) ⊎ (r.forced_discovery ≢ pos 0)
        → Relayed p k
        → get_index_from_ip p k.src_can_ip_str ≡ get_index_from_ip p (get_can_ip p)
        → k.rreq.broadcast_id ≡ n.running_broadcast_no
        → pos 0 ≤ℤ n.running_broadcast_no
        → n.running_broadcast_no <ℤ pos 127
        → (m : Node) × (handle_request p addr r n ≡ some m)
          × (process_pack p k hw i m
              ≡ some (is_self_dest p k.dest_can_ip_str, note_sender p k hw i m))
    unfolding note_sender
    request_echo k hw i v s h c src id lo hi =
        let (m, e, _, _, f, _) = request_unknown v s h in
        let next = n.running_broadcast_no +ℤ pos 1 in
        let kept : to_char next ≡ next = to_char-small next (omega int_laws) (omega int_laws) in
        (
          m,
          e,
          process_pack-relay p k hw i m c
              ∙ relay_old p (is_self_dest p k.dest_can_ip_str) k i (note_sender p k hw i m)
                  {x = next} (rw (src, f, kept)) (rw id (omega int_laws)),
        )

  next_rreq-IsValid :
      (k : OdrPack) (n : Node)
      → IsValid n
      → Slot (get_index_from_ip p (get_can_ip p))
      → (m : Node) × (next_rreq p k n ≡ some m) × IsValid m
  next_rreq-IsValid k n v s =
      let (l, a, b) = next_rreq-total k n s v.slots in
      (
        record n {
          source_packet = rreq_packet n.running_broadcast_no k;
          running_broadcast_no = n.running_broadcast_no +ℤ pos 1;
          latest_rreq = l;
        },
        b,
        record { table = v.table; slots = latest_put-length _ _ n.latest_rreq l a ∙ v.slots },
      )

  -- A request keeps the invariant and is never out of bounds, whatever it asks for.
  pub handle_request-IsValid :
      (addr : List ℕ) (r : OdrReq) (n : Node)
      → IsValid n
      → Slot (get_index_from_ip p (get_can_ip p))
      → (m : Node) × (handle_request p addr r n ≡ some m) × IsValid m
  unfolding handle_request read_request
  handle_request-IsValid addr r n v s =
      let n' = read_request addr r n in
      let k = addressed p n' in
      let key = get_index_from_ip p (request_dest p n') in
      let out = send_payload p n.if_info_list n.rtbl.entries (payload_packet k) key n.sent in
      let v' : IsValid n' = record { table = v.table; slots = v.slots } in
      elim (Bool-cases (entry_exists_for_src key n.rtbl.entries && r.forced_discovery ==ℤ pos 0)) [
        | inl go ↦
            let (m, b, w) =
              next_rreq-IsValid (payload_packet k) (record n' { sent = out.1 })
                (record { table = v.table; slots = v.slots }) s in
            (m, rw (go, handle_request) b, w)
        | inr stay ↦
            let (m, b, w) = next_rreq-IsValid k n' v' s in
            (
              record m {
                sent = (broadcast_ll_msg p m.if_info_list m.source_packet minus_one m.sent).1;
              },
              rw (stay, handle_request) (rw (b, handle_request)),
              record { table = w.table; slots = w.slots },
            )
      ]
