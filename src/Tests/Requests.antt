-- ===== src/Tests/Requests.antt =====
-- Examples for a client's request and the loop.
use odr.Prelude.{ℕ, ◌≡◌, refl, List, [], ◌∷◌, none, some, arith, inl}
use odr.Prelude.Int.{zero_ne_one, ◌≤ℤ◌, pos, ◌+ℤ◌, ◌-ℤ◌, to_char}
use odr.Structs.{Entry, OdrPack, OdrReq, type_rreq, minus_one}
use odr.CString.{byte_at, bytes, strncpy, strncmp_eq, c_string}
use odr.Table.{get_index_from_ip, first_with}
use odr.Table.Routes.{route}
use odr.Link.Frames.{push_all, flood, unicast}
use odr.Node.{Node, latest_at}
use odr.Odr.Common.{is_self_dest}
use odr.Odr.Flood.{Relayed}
use odr.Odr.Valid.{IsValid}
use odr.Main.{
  request, Round, running, loop, handle_request, get_can_ip, request_dest, cut_at_colon,
  read_request, payload_packet, rreq_packet,
}
use odr.Main.Request.{packet, dest_key, request_known, request_unknown}
use odr.Main.Routes.{loop-never_worse}
use odr.Main.Refines.{map_after, loop-refines}
use odr.Table.Map.{view}
use odr.Main.Loop.{loop-runs}
use odr.Tests.{
  vm1, address, eth1, eth2, neighbour, pack, node, entry, knowing, vm1-AddsLast, vm1-Healthy,
  node-IsValid, knowing-IsValid, key_of, route-table_of, own-Slot, vm2-Slot,
}

-- A request for vm3.
abbrev asking : OdrReq
asking = record { msg = bytes 32 (b'3' ∷ []); forced_discovery = pos 0 }

abbrev client : List ℕ
client = b'c' ∷ []

vm3-known :
    route (dest_key vm1 client asking (knowing b'3' (pos 98))) (knowing b'3' (pos 98)).rtbl
    ≡ some (entry b'3' (pos 98))
unfolding first_with get_index_from_ip request_dest cut_at_colon read_request strncpy c_string bytes
    byte_at ◌-ℤ◌ to_char
vm3-known = refl

vm3-unknown : route (dest_key vm1 client asking node) node.rtbl ≡ none
unfolding first_with
vm3-unknown = refl

request_known_example :
    (m : Node) × (handle_request vm1 client asking (knowing b'3' (pos 98)) ≡ some m)
    × (m.sent
        ≡ push_all
            (unicast
              (payload_packet (packet vm1 client asking (knowing b'3' (pos 98))))
              neighbour
              (pos 4)
              (eth1 ∷ eth2 ∷ []))
            [])
request_known_example =
    request_known vm1 client asking (knowing b'3' (pos 98)) (entry b'3' (pos 98))
      (knowing-IsValid b'3' (pos 98)) own-Slot vm3-known refl

request_unknown_example :
    (m : Node) × (handle_request vm1 client asking node ≡ some m)
    × (m.sent
        ≡ push_all
            (flood
              (rreq_packet (pos 1) (packet vm1 client asking node))
              minus_one
              (eth1 ∷ eth2 ∷ []))
            [])
    × (m.running_broadcast_no ≡ pos 1 +ℤ pos 1)
    × (latest_at (get_index_from_ip vm1 (get_can_ip vm1)) m.latest_rreq
        ≡ some (to_char (pos 1 +ℤ pos 1)))
    × (m.rtbl ≡ node.rtbl)
request_unknown_example =
    request_unknown vm1 client asking node node-IsValid own-Slot (inl vm3-unknown)

-- The RREQ of that request as a neighbour sends it back.
abbrev echo : OdrPack
echo = pack type_rreq b'1' b'3' (pos 1) (pos 2)

echo-Relayed : Relayed vm1 echo
unfolding is_self_dest strncmp_eq bytes byte_at
echo-Relayed = record {
  is_rreq = refl;
  in_range = (omega arith, omega arith);
  unanswered = zero_ne_one;
  elsewhere = zero_ne_one;
}

own_keys : get_index_from_ip vm1 (address b'1') ≡ get_index_from_ip vm1 (get_can_ip vm1)
unfolding get_index_from_ip get_can_ip strncpy c_string bytes byte_at
own_keys = refl

-- An RREQ of vm2 and a request, then a silent round.
abbrev rounds : List Round
rounds =
    record {
      frame = some (record {
        packet = pack type_rreq b'2' b'3' (pos 9) (pos 2);
        h_source = neighbour;
        sll_ifindex = pos 3;
      });
      datagram = some (request client asking);
    }
    ∷ record { frame = none; datagram = none }
    ∷ []

loop-runs_example : (m : Node) × (loop vm1 rounds node ≡ running m) × IsValid m
loop-runs_example =
    loop-runs vm1 vm1-AddsLast own-Slot vm1-Healthy (b'v' ∷ b'm' ∷ b'1' ∷ []) refl rounds node
      (((inl refl, vm2-Slot), tt), ((tt, tt), tt)) node-IsValid

loop-never_worse_example :
    (m : Node) × (f : Entry) × (loop vm1 rounds (knowing b'2' (pos 98)) ≡ running m)
    × (route (key_of b'2') m.rtbl ≡ some f)
    × (f.hop ≤ℤ pos 3)
loop-never_worse_example =
    loop-never_worse vm1 vm1-AddsLast own-Slot vm1-Healthy (b'v' ∷ b'm' ∷ b'1' ∷ []) refl rounds
      (knowing b'2' (pos 98)) (key_of b'2') (entry b'2' (pos 98))
      (((inl refl, vm2-Slot), tt), ((tt, tt), tt)) (knowing-IsValid b'2' (pos 98))
      (route-table_of b'2' (pos 98))

loop-refines_example :
    (m : Node) × (loop vm1 rounds (knowing b'2' (pos 98)) ≡ running m)
    × (view m.rtbl ≡ map_after vm1 rounds (view (knowing b'2' (pos 98)).rtbl))
loop-refines_example =
    loop-refines vm1 vm1-AddsLast own-Slot vm1-Healthy (b'v' ∷ b'm' ∷ b'1' ∷ []) refl rounds
      (knowing b'2' (pos 98)) (((inl refl, vm2-Slot), tt), ((tt, tt), tt))
      (knowing-IsValid b'2' (pos 98))
