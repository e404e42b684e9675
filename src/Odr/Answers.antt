-- ===== src/Odr/Answers.antt =====
-- What a node sends on an RREP.
use odr.Prelude.{
  ℕ, ◌≡◌, ◌≢◌, refl, ap, ◌∙◌, true, false, List, none, some, arith, Option-cases, inl, inr,
}
use odr.Prelude.Int.{ℤ, pos, ◌==ℤ◌, eq_of_parts}
use odr.Structs.{OdrPack, Entry, Out, type_rrep}
use odr.Platform.{Platform, AddsLast}
use odr.Table.{get_index_from_ip}
use odr.Table.Valid.{InRange, update-IsValid}
use odr.Table.Routes.{get-route, route, route-known}
use odr.Table.Walk.{exists-first}
use odr.Table.Keys.{Distinct, update-known_dest}
use odr.Link.Frames.{
  push_all, unicast, payload_frames, to_entry-frames, send-frames, payload-frames,
}
use odr.Node.{Node}
use odr.Odr.Common.{note_sender, is_self_src}
use odr.Odr.Rrep.{request_data, relayed_rrep, finish_discovery, relay_rrep, process_rrep}
use odr.Odr.Data.{}
use odr.Odr.Valid.{IsValid}
use odr.Odr.Sends.{Sent, noted}
use odr.Odr.{process_pack}

module _ (p : Platform) (k : OdrPack) (hw : List ℕ) (i : ℤ) (n : Node) where
  pub process_pack-rrep :
      k.type ≡ type_rrep → InRange k → process_pack p k hw i n ≡ some (process_rrep p k hw i n)
  unfolding process_pack
  process_pack-rrep t r = ground arith

  -- An RREP within the hop limit at another node than the one that asked goes on to the next hop
  -- of that one's entry, counted once. Without an entry nothing is sent.
  pub rrep_relayed :
      k.type ≡ type_rrep
      → InRange k
      → is_self_src p k.src_can_ip_str ≢ pos 1
      → Sent
          (process_pack p k hw i n)
          (elim (route (get_index_from_ip p k.src_can_ip_str) (noted p k hw i n)) [
            | none ↦ n.sent
            | some e ↦
                push_all (unicast (relayed_rrep k) e.next_hop_hwaddr e.if_no n.if_info_list) n.sent
          ])
  unfolding process_rrep relay_rrep note_sender
  rrep_relayed t r a =
      let far : (is_self_src p k.src_can_ip_str ==ℤ pos 1) ≡ false =
        ground (arith, eq_of_parts (is_self_src p k.src_can_ip_str) (pos 1)) in
      let x = route (get_index_from_ip p k.src_can_ip_str) (noted p k hw i n) in
      rw (process_pack-rrep t r) (
        rw (far, process_rrep)
          (elim (Option-cases x) [
            | inl gone ↦ rw (exists-first, gone, relay_rrep) refl
            | inr (e, f) ↦
                rw (exists-first, get-route, f, relay_rrep)
                  (send-frames p (relayed_rrep k) e.next_hop_hwaddr e.if_no n.if_info_list n.sent)
          ]))

  finish_sends :
      (r : ℤ) (m : Node)
      → Distinct m.rtbl.entries
      → m.route_discovered ≡ pos 0
      → let x = route (get_index_from_ip p k.dest_can_ip_str) m.rtbl in
        ((finish_discovery p r k m).1.route_discovered ≡ pos 1)
        × ((finish_discovery p r k m).1.sent
            ≡ push_all (payload_frames (request_data k m) m.if_info_list x) m.sent)
  unfolding finish_discovery
  finish_sends r m d h =
      let key = get_index_from_ip p k.dest_can_ip_str in
      let q = request_data k m in
      let go : (m.route_discovered ==ℤ pos 0) ≡ true = ground arith in
      (
        rw (go, finish_discovery),
        rw (go, finish_discovery)
            (ap (λ (x : ℤ × List Out). x.1)
                (payload-frames p m.if_info_list q key m.rtbl.entries m.sent d)
              ∙ to_entry-frames p q m.if_info_list m.sent (route key m.rtbl)),
      )

  -- The first RREP, within the hop limit, at the node that asked finds an entry for the
  -- destination, sends the client's request to its next hop, and nothing else, and ends the
  -- discovery. The state is valid, and list_add adds last.
  pub rrep_completes :
      AddsLast p
      → IsValid n
      → k.type ≡ type_rrep
      → InRange k
      → is_self_src p k.src_can_ip_str ≡ pos 1
      → n.route_discovered ≡ pos 0
      → (e : Entry) × (r : ℤ) × (m : Node) × (route
            (get_index_from_ip p k.dest_can_ip_str)
            (noted p k hw i n)
          ≡ some e)
        × (process_pack p k hw i n ≡ some (r, m))
        × (m.route_discovered ≡ pos 1)
        × (m.sent
            ≡ push_all (unicast (request_data k n) e.next_hop_hwaddr e.if_no n.if_info_list) n.sent)
  unfolding process_rrep note_sender request_data
  rrep_completes last v t r a d =
      let key = get_index_from_ip p k.dest_can_ip_str in
      let u = noted p k hw i n in
      let (e, f) = route-known key u.entries (update-known_dest p last k hw i n.rtbl t) in
      let m = note_sender p k hw i n in
      let out = finish_discovery p (is_self_src p k.src_can_ip_str) k m in
      let here : (is_self_src p k.src_can_ip_str ==ℤ pos 1) ≡ true = ground arith in
      let done =
        finish_sends (is_self_src p k.src_can_ip_str) m
          (update-IsValid p last k hw i n.rtbl r v.table).distinct d in
      (
        e,
        out.0,
        out.1,
        f,
        process_pack-rrep t r ∙ rw (here, process_rrep),
        done.0,
        done.1 ∙ ap (λ x. push_all (payload_frames (request_data k n) n.if_info_list x) n.sent) f,
      )

  -- A later RREP sends nothing: the request goes out once for each discovery.
  rrep_repeated :
      k.type ≡ type_rrep
      → InRange k
      → is_self_src p k.src_can_ip_str ≡ pos 1
      → n.route_discovered ≢ pos 0
      → Sent (process_pack p k hw i n) n.sent
  unfolding process_rrep finish_discovery note_sender
  rrep_repeated t r a d =
      rw (process_pack-rrep t r) (ground (arith, eq_of_parts n.route_discovered (pos 0)))
