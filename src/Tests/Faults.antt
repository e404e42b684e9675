-- ===== src/Tests/Faults.antt =====
-- Examples for the packets and requests that end the process.
use odr.Prelude.{◌≡◌, ◌↔◌, refl, [], ◌∷◌, none, some}
use odr.Prelude.Int.{pos}
use odr.Structs.{OdrPack, type_rreq}
use odr.Table.{get_index_from_ip}
use odr.Table.Valid.{InRange}
use odr.Node.{Node}
use odr.Odr.Safe.{Slot}
use odr.Odr.Faults.{process_pack-none}
use odr.Odr.Flood.{Relayed}
use odr.Odr.Total.{KnownType}
use odr.Odr.{process_pack}
use odr.Main.{FrameIn, failed, on_frame}
use odr.Main.Ends.{on_frame-fails}
use odr.Tests.{vm1, vm1-AddsLast, vm1-Healthy, node, node-IsValid, pack, neighbour, vm2-Slot}

abbrev far : OdrPack
far = pack type_rreq b'2' b'3' (pos 9) (pos 2)

process_pack-none_example :
    (process_pack vm1 far neighbour (pos 3) node ≡ none)
    ↔ (Relayed vm1 far × (¬ (Slot (get_index_from_ip vm1 far.src_can_ip_str))))
process_pack-none_example = process_pack-none vm1 far neighbour (pos 3) node refl

-- A packet of no known type.
abbrev unknown : FrameIn
unknown = record {
  packet = pack (pos 7) b'2' b'3' (pos 9) (pos 2);
  h_source = neighbour;
  sll_ifindex = pos 3;
}

on_frame-fails_example :
    ((m : Node) × (on_frame vm1 (some unknown) node ≡ failed m))
    ↔ (InRange unknown.packet × (¬ (KnownType unknown.packet)))
on_frame-fails_example =
    on_frame-fails vm1 vm1-AddsLast vm1-Healthy (b'v' ∷ b'm' ∷ b'1' ∷ []) refl unknown node
      node-IsValid vm2-Slot
