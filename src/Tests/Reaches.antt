-- ===== src/Tests/Reaches.antt =====
-- Examples for an RREQ of vm2 that goes over vm1 and the node behind it, and the RREP that comes back.
use odr.Prelude.{◌≢◌, refl, arith, [], ◌∷◌, inl}
use odr.Prelude.Int.{pos, ◌+ℤ◌, ◌-ℤ◌, to_char, zero_ne_one}
use odr.Structs.{OdrPack, Frame, to_link, type_rrep}
use odr.CString.{bytes, byte_at, strncmp_eq, c_string}
use odr.Table.{
  get_index_from_ip, first_with, update_rtbl_entry, update_rreq, learn, entry_exists_for_src,
  add_new_entry, rreq_offer,
}
use odr.Node.{latest_at}
use odr.Link.{broadcast_frame, unicast_frame}
use odr.Odr.Common.{is_self_dest, is_self_src}
use odr.Odr.Rreq.{count_hop}
use odr.Odr.Rrep.{relayed_rrep}
use odr.Network.{Net, Reach, with_node}
use odr.Network.Path.{Stop, Reached}
use odr.Network.Reaches.{Waiting, FloodChain, ReplyChain, stop_at, flood_reaches, reply_reaches}
use odr.Network.Trail.{Ready}
use odr.Tests.{
  vm1, vm1-AddsLast, vm2-Slot, node, node-IsValid, eth2, neighbour, pack, entry, knowing,
  knowing-IsValid, route-table_of,
}
use odr.Tests.Network.{flooded, start}
use odr.Tests.Progress.{pair, pair-Sane}

abbrev rreq : OdrPack
rreq = flooded.packet

abbrev near : Stop
near = record { node = 1; frame = flooded; ifindex = pos 3 }

-- It hears the frame that vm1 sends through its other interface.
abbrev far : Stop
far = record { node = 4; frame = broadcast_frame (count_hop rreq) eth2; ifindex = pos 3 }

near-Ready : Ready rreq (stop_at pair node near)
unfolding is_self_dest strncmp_eq latest_at get_index_from_ip c_string bytes byte_at ◌-ℤ◌ to_char
    update_rtbl_entry update_rreq learn entry_exists_for_src add_new_entry first_with rreq_offer
near-Ready = record {
  last = vm1-AddsLast;
  valid = node-IsValid.table;
  fresh = record {
    relayed = record {
      is_rreq = refl;
      in_range = (omega arith, omega arith);
      unanswered = zero_ne_one;
      elsewhere = zero_ne_one;
    };
    slot = (omega arith, omega arith);
    slots = refl;
    latest = pos 0;
    recorded = refl;
    above = omega arith;
  };
  unknown = refl;
  silent = refl;
}

far-Ready : Ready (count_hop rreq) (stop_at pair node far)
unfolding is_self_dest strncmp_eq latest_at get_index_from_ip c_string bytes byte_at ◌-ℤ◌ to_char
    update_rtbl_entry update_rreq learn entry_exists_for_src add_new_entry first_with rreq_offer
    count_hop ◌+ℤ◌
far-Ready = record {
  last = vm1-AddsLast;
  valid = node-IsValid.table;
  fresh = record {
    relayed = record {
      is_rreq = refl;
      in_range = (omega arith, omega arith);
      unanswered = zero_ne_one;
      elsewhere = zero_ne_one;
    };
    slot = (omega arith, omega arith);
    slots = refl;
    latest = pos 0;
    recorded = refl;
    above = omega arith;
  };
  unknown = refl;
  silent = refl;
}

path : FloodChain pair start rreq (near ∷ far ∷ [])
unfolding count_hop broadcast_frame
path = (refl, near-Ready, (inl refl, refl), (refl, far-Ready, tt, tt))

four_ne_one : far.node ≢ near.node
four_ne_one e = absurd (ground (arith, e))

flood_reaches_example :
    (d : Net) × Reach pair start d
    × Reached pair d rreq.src_can_ip_str rreq.rreq.hop (near ∷ far ∷ [])
flood_reaches_example =
    flood_reaches pair pair-Sane start 2 rreq (near ∷ far ∷ []) (inl refl, refl) path
      ((four_ne_one, tt), (tt, tt))

-- The RREP of vm3.
abbrev rrep : OdrPack
rrep = pack type_rrep b'2' b'3' (pos 1) (pos 1)

abbrev answering : Frame
answering = unicast_frame rrep neighbour (pos 4) eth2

abbrev first : Stop
first = record { node = 4; frame = answering; ifindex = pos 3 }

abbrev second : Stop
second = record {
  node = 1;
  frame = unicast_frame (relayed_rrep rrep) neighbour (pos 4) eth2;
  ifindex = pos 3;
}

-- vm3 has answered; the other nodes know a way to vm2.
abbrev answered : Net
answered = with_node 3 (record node { sent = to_link answering ∷ [] }) (λ v. knowing b'2' (pos 98))

first-Waiting : Waiting vm1 rrep (knowing b'2' (pos 98))
unfolding is_self_src strncmp_eq get_index_from_ip c_string bytes byte_at ◌-ℤ◌ to_char first_with
first-Waiting = record {
  valid = knowing-IsValid b'2' (pos 98);
  is_rrep = refl;
  in_range = (omega arith, omega arith);
  elsewhere = zero_ne_one;
  slot = vm2-Slot;
  back = entry b'2' (pos 98);
  known = route-table_of b'2' (pos 98);
  unknown = refl;
}

second-Waiting : Waiting vm1 (relayed_rrep rrep) (knowing b'2' (pos 98))
unfolding is_self_src strncmp_eq get_index_from_ip c_string bytes byte_at ◌-ℤ◌ to_char first_with
    relayed_rrep ◌+ℤ◌
second-Waiting = record {
  valid = knowing-IsValid b'2' (pos 98);
  is_rrep = refl;
  in_range = (omega arith, omega arith);
  elsewhere = zero_ne_one;
  slot = vm2-Slot;
  back = entry b'2' (pos 98);
  known = route-table_of b'2' (pos 98);
  unknown = refl;
}

way_back : ReplyChain pair answered rrep (first ∷ second ∷ [])
unfolding relayed_rrep unicast_frame first_with get_index_from_ip c_string bytes byte_at ◌-ℤ◌
    to_char
way_back = (refl, first-Waiting, (inl refl, refl), (refl, second-Waiting, tt, tt))

one_ne_four : second.node ≢ first.node
one_ne_four e = absurd (ground (arith, e))

reply_reaches_example :
    (d : Net) × Reach pair answered d
    × Reached pair d rrep.dest_can_ip_str rrep.rrep.hop (first ∷ second ∷ [])
reply_reaches_example =
    reply_reaches pair pair-Sane answered 3 rrep (first ∷ second ∷ []) (inl refl, refl) way_back
      ((one_ne_four, tt), (tt, tt))
