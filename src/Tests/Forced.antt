-- ===== src/Tests/Forced.antt =====
-- An example for forced discovery: vm2 asks for vm3, and vm1, which knows vm3, hears the RREQ.
use odr.Prelude.{ℕ, ◌≡◌, refl, arith, List, [], ◌∷◌, some}
use odr.Prelude.Int.{pos, zero_ne_one, ◌-ℤ◌, to_char}
use odr.Structs.{OdrPack, OdrReq, minus_one}
use odr.CString.{bytes, byte_at, strncmp_eq, c_string, strncpy}
use odr.Table.{
  get_index_from_ip, update_rtbl_entry, update_rreq, learn, entry_exists_for_src, add_new_entry,
  first_with, rreq_offer,
}
use odr.Table.Routes.{route}
use odr.Link.Frames.{push_all, flood, unicast}
use odr.Node.{Node, latest_at}
use odr.Odr.Common.{is_self_dest}
use odr.Odr.Rreq.{count_hop, known_rrep, answered_rreq}
use odr.Odr.Safe.{Slot}
use odr.Odr.Sends.{Sent, Fresh, noted}
use odr.Odr.{process_pack}
use odr.Main.{
  handle_request, get_can_ip, packet_ip, request_dest, read_request, cut_at_colon, addressed,
  rreq_packet,
}
use odr.Main.Discovery.{question}
use odr.Main.Forced.{forced_answered}
use odr.Tests.{vm1, eth1, eth2, neighbour, node, entry, knowing, node-IsValid}
use odr.Tests.Network.{platform_of}

abbrev client : List ℕ
client = b'c' ∷ []

abbrev forcing : OdrReq
forcing = record { msg = bytes 32 (b'3' ∷ []); forced_discovery = pos 1 }

abbrev rreq : OdrPack
rreq = question (platform_of 2) client forcing node

abbrev rrep : OdrPack
rrep = known_rrep (count_hop rreq) (pos 3)

vm2-own-Slot : Slot (get_index_from_ip (platform_of 2) (get_can_ip (platform_of 2)))
unfolding get_index_from_ip c_string bytes byte_at get_can_ip ◌-ℤ◌ to_char strncpy
vm2-own-Slot = (omega arith, omega arith)

rreq-Fresh : Fresh vm1 rreq (knowing b'3' (pos 98))
unfolding is_self_dest strncmp_eq latest_at get_index_from_ip c_string bytes byte_at ◌-ℤ◌ to_char
    rreq_packet addressed packet_ip request_dest read_request cut_at_colon get_can_ip strncpy
rreq-Fresh = record {
  relayed = record {
    is_rreq = refl;
    in_range = (omega arith, omega arith);
    unanswered = zero_ne_one;
    elsewhere = zero_ne_one;
  };
  slot = (omega arith, omega arith);
  slots = refl;
  latest = pos 0;
  recorded = refl;
  above = omega arith;
}

vm3-known :
    route
      (get_index_from_ip vm1 rreq.dest_can_ip_str)
      (noted vm1 rreq neighbour (pos 3) (knowing b'3' (pos 98)))
    ≡ some (entry b'3' (pos 98))
unfolding update_rtbl_entry update_rreq learn entry_exists_for_src add_new_entry first_with
    rreq_offer get_index_from_ip c_string bytes byte_at ◌-ℤ◌ to_char rreq_packet addressed packet_ip
    request_dest read_request cut_at_colon get_can_ip strncpy
vm3-known = refl

forced_answered_example :
    (rreq.rreq.force_discovery ≡ pos 0)
    × ((m : Node) × (handle_request (platform_of 2) client forcing node ≡ some m)
        × (m.sent ≡ push_all (flood rreq minus_one (eth1 ∷ eth2 ∷ [])) []))
    × Sent (process_pack vm1 rreq neighbour (pos 3) (knowing b'3' (pos 98))) (
        push_all
          (flood (answered_rreq rrep) minus_one (eth1 ∷ eth2 ∷ []))
          (push_all (unicast rrep neighbour (pos 4) (eth1 ∷ eth2 ∷ [])) []))
forced_answered_example =
    forced_answered (platform_of 2) vm1 client forcing node (knowing b'3' (pos 98)) neighbour
      (pos 3) (entry b'3' (pos 98)) node-IsValid vm2-own-Slot refl rreq-Fresh vm3-known zero_ne_one
