-- ===== src/Tests/Multihop.antt =====
-- Examples for a discovery and a whole exchange over two nodes: vm2 asks for vm3, and vm1 and vm4 are in between.
use odr.Prelude.{◌≡◌, refl, arith, ℕ, List, [], ◌∷◌, some}
use odr.Prelude.Int.{pos, ◌+ℤ◌, ◌-ℤ◌, to_char, zero_ne_one}
use odr.Structs.{OdrPack, minus_one}
use odr.CString.{bytes, byte_at, strncmp_eq, c_string, strncpy}
use odr.Platform.{Platform, AddsLast}
use odr.Table.{
  get_index_from_ip, first_with, update_rtbl_entry, update_rreq, learn, entry_exists_for_src,
  add_new_entry, rreq_offer,
}
use odr.Link.Frames.{push_all, flood, unicast}
use odr.Node.{Node, latest_at}
use odr.Odr.Common.{is_self_dest, is_self_src}
use odr.Odr.Rreq.{count_hop, dest_rrep}
use odr.Odr.Rrep.{relayed_rrep, request_data}
use odr.Odr.Safe.{Slot}
use odr.Odr.Sends.{Sent}
use odr.Odr.{process_pack}
use odr.Main.{
  handle_request, get_can_ip, packet_ip, request_dest, cut_at_colon, read_request, addressed,
  rreq_packet,
}
use odr.Main.Request.{dest_key}
use odr.Main.Discovery.{question}
use odr.Network.Trail.{Relay, Ready, Way, Way-Trail}
use odr.Network.Reply.{back, Returning, Return}
use odr.Network.Carry.{Between}
use odr.Network.Exchange.{Exchange, datagram, time_arrives}
use odr.Client.{msg_recv, shown, time_str}
use odr.Client.Texts.{time_text}
use odr.Network.Discovery.{far, answer, discovery}
use odr.Tests.{vm1, eth1, eth2, neighbour, node, node-IsValid, vm1-AddsLast}
use odr.Tests.Network.{platform_of}
use odr.Tests.Trail.{at_vm1, at_vm4, vm4}
use odr.Tests.Discovery.{monday, vm3, vm3-AddsLast, client, asking, no_route}

abbrev vm2 : Platform
vm2 = platform_of 2

abbrev rreq : OdrPack
rreq = question vm2 client asking node

abbrev between : List Relay
between = at_vm1 ∷ at_vm4 ∷ []

vm1-Ready : Ready rreq at_vm1
unfolding is_self_dest strncmp_eq latest_at get_index_from_ip c_string bytes byte_at ◌-ℤ◌ to_char
    update_rtbl_entry update_rreq learn entry_exists_for_src add_new_entry first_with rreq_offer
    rreq_packet addressed packet_ip request_dest read_request cut_at_colon get_can_ip strncpy
vm1-Ready = record {
  last = vm1-AddsLast;
  valid = node-IsValid.table;
  fresh = record {
    relayed = record {
      is_rreq = refl;
      in_range = (omega arith, omega arith);
      unanswered = zero_ne_one;
      elsewhere = zero_ne_one;
    };
    slot = (omega arith, omega arith);
    slots = refl;
    latest = pos 0;
    recorded = refl;
    above = omega arith;
  };
  unknown = refl;
  silent = refl;
}

vm4-Ready : Ready (count_hop rreq) at_vm4
unfolding is_self_dest strncmp_eq latest_at get_index_from_ip c_string bytes byte_at ◌-ℤ◌ to_char
    update_rtbl_entry update_rreq learn entry_exists_for_src add_new_entry first_with rreq_offer
    rreq_packet addressed packet_ip request_dest read_request cut_at_colon get_can_ip strncpy
    count_hop ◌+ℤ◌
vm4-Ready = record {
  last = record { rtbl_last = λ e es. refl; if_last = λ i is. refl };
  valid = node-IsValid.table;
  fresh = record {
    relayed = record {
      is_rreq = refl;
      in_range = (omega arith, omega arith);
      unanswered = zero_ne_one;
      elsewhere = zero_ne_one;
    };
    slot = (omega arith, omega arith);
    slots = refl;
    latest = pos 0;
    recorded = refl;
    above = omega arith;
  };
  unknown = refl;
  silent = refl;
}

abbrev way : Way rreq between
way = (vm1-Ready, (vm4-Ready, tt))

abbrev rrep : OdrPack
rrep = answer rreq between

vm4-Returning : Returning (count_hop rreq) rrep at_vm4
unfolding is_self_src strncmp_eq get_index_from_ip c_string bytes byte_at ◌-ℤ◌ to_char rreq_packet
    addressed packet_ip request_dest read_request cut_at_colon get_can_ip strncpy count_hop
    dest_rrep ◌+ℤ◌
vm4-Returning = record {
  last = record { rtbl_last = λ e es. refl; if_last = λ i is. refl };
  is_rrep = refl;
  in_range = (omega arith, omega arith);
  elsewhere = zero_ne_one;
  same_src = refl;
  other_dest = λ e. absurd (ground arith);
}

vm1-Returning : Returning rreq (relayed_rrep rrep) at_vm1
unfolding is_self_src strncmp_eq get_index_from_ip c_string bytes byte_at ◌-ℤ◌ to_char rreq_packet
    addressed packet_ip request_dest read_request cut_at_colon get_can_ip strncpy count_hop
    dest_rrep relayed_rrep ◌+ℤ◌
vm1-Returning = record {
  last = vm1-AddsLast;
  is_rrep = refl;
  in_range = (omega arith, omega arith);
  elsewhere = zero_ne_one;
  same_src = refl;
  other_dest = λ e. absurd (ground arith);
}

vm2-AddsLast : AddsLast vm2
vm2-AddsLast = record { rtbl_last = λ e es. refl; if_last = λ i is. refl }

vm2-own : Slot (get_index_from_ip vm2 (get_can_ip vm2))
unfolding get_index_from_ip c_string bytes byte_at get_can_ip ◌-ℤ◌ to_char strncpy
vm2-own = (omega arith, omega arith)

rreq-src : is_self_src vm2 rreq.src_can_ip_str ≡ pos 1
unfolding is_self_src strncmp_eq bytes byte_at rreq_packet addressed packet_ip get_can_ip strncpy
rreq-src = refl

rreq-dest : is_self_dest vm3 rreq.dest_can_ip_str ≡ pos 1
unfolding is_self_dest strncmp_eq bytes byte_at rreq_packet addressed packet_ip request_dest
    read_request cut_at_colon strncpy c_string
rreq-dest = refl

discovery_example :
    (m : Node) × (handle_request vm2 client asking node ≡ some m)
    × (m.sent ≡ push_all (flood rreq minus_one (eth1 ∷ eth2 ∷ [])) [])
    × Sent
        (process_pack vm3 (far rreq between) neighbour (pos 3) node)
        (push_all (unicast rrep neighbour (pos 3) (eth1 ∷ eth2 ∷ [])) [])
    × Return rreq rreq.rreq.hop between (Way-Trail rreq between way) rrep
    × Sent (process_pack vm2 (back between rrep) neighbour (pos 4) m) (
        push_all
          (unicast (request_data (back between rrep) m) neighbour (pos 4) (eth1 ∷ eth2 ∷ []))
          m.sent)
discovery_example =
    discovery vm2 vm3 vm2-AddsLast vm3-AddsLast client asking node node between neighbour neighbour
      (pos 3) (pos 4) way (omega arith) node-IsValid vm2-own
      (no_route (dest_key vm2 client asking node))
      (no_route (get_index_from_ip vm2 rreq.dest_can_ip_str))
      (no_route (get_index_from_ip vm3 rreq.src_can_ip_str)) rreq-src rreq-dest
      (vm1-Returning, (vm4-Returning, tt))

rreq-away : is_self_src vm3 rreq.src_can_ip_str ≡ pos 0
unfolding is_self_src strncmp_eq bytes byte_at rreq_packet addressed packet_ip get_can_ip strncpy
rreq-away = refl

vm1-Between : Between vm1 rrep.src_can_ip_str rrep.dest_can_ip_str
unfolding is_self_src is_self_dest strncmp_eq get_index_from_ip c_string bytes byte_at ◌-ℤ◌ to_char
    rreq_packet addressed packet_ip request_dest read_request cut_at_colon get_can_ip strncpy
    count_hop dest_rrep
vm1-Between = record {
  last = vm1-AddsLast;
  not_src = refl;
  not_dest = refl;
  two_ends = λ e. absurd (ground arith);
}

vm4-Between : Between vm4 rrep.src_can_ip_str rrep.dest_can_ip_str
unfolding is_self_src is_self_dest strncmp_eq get_index_from_ip c_string bytes byte_at ◌-ℤ◌ to_char
    rreq_packet addressed packet_ip request_dest read_request cut_at_colon get_can_ip strncpy
    count_hop dest_rrep
vm4-Between = record {
  last = record { rtbl_last = λ e es. refl; if_last = λ i is. refl };
  not_src = refl;
  not_dest = refl;
  two_ends = λ e. absurd (ground arith);
}

abbrev text : List ℕ
text = time_str (bytes 32 []) monday

abbrev Whole : Type 0
Whole =
    Exchange vm2 vm3 client asking neighbour neighbour (pos 3) (pos 4) node node between way text

time_arrives_example :
    (x : Whole) × (c_string
        (shown
          (msg_recv
            (pos 51)
            (datagram vm2 vm3 client asking neighbour neighbour
              (pos 3)
              (pos 4)
              node
              node
              between
              x.asked
              x.answers.after
              x.proceeds.after
              text)
            (bytes 32 [])
            (bytes 15 [])).1).time
      ≡ time_text monday)
unfolding bytes
time_arrives_example =
    time_arrives vm2 vm3 client asking neighbour neighbour (pos 3) (pos 4) node node between
      vm2-AddsLast vm3-AddsLast way (bytes 32 []) monday (bytes 32 []) (bytes 15 []) (pos 51) refl
      refl refl refl (omega arith) node-IsValid node-IsValid vm2-own
      (no_route (dest_key vm2 client asking node))
      (no_route (get_index_from_ip vm2 rreq.dest_can_ip_str))
      (no_route (get_index_from_ip vm3 rreq.src_can_ip_str)) rreq-src rreq-away rreq-dest
      (vm1-Returning, (vm4-Returning, tt)) (vm1-Between, (vm4-Between, tt)) (λ s. refl)
