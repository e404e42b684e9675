-- ===== src/Tests/Tables.antt =====
-- Examples for the routing table and the sends.
use odr.Prelude.{◌≡◌, refl, true, some, if◌then◌else◌}
use odr.Prelude.Int.{pos, ◌-ℤ◌, ltb_ℤ}
use odr.Structs.{Entry, type_rrep, type_data}
use odr.Table.{update_rtbl_entry}
use odr.Table.Routes.{route, is_stale}
use odr.Table.Map.{view, updated_map}
use odr.Table.Refines.{update-refines}
use odr.Table.Progress.{stale_rrep}
use odr.Tests.{
  vm1, neighbour, pack, entry, key_of, table_of, vm1-AddsLast, route-table_of, entry-Distinct,
}

old_entry-is_stale : is_stale vm1 (table_of b'2' (pos 50)) (entry b'2' (pos 50)) ≡ true
unfolding ◌-ℤ◌
old_entry-is_stale = refl

stale_rrep_example :
    (f : Entry) × (route (key_of b'2') (
        update_rtbl_entry vm1
          (pack type_rrep b'1' b'2' (pos 9) (pos 2))
          neighbour
          (pos 3)
          (table_of b'2' (pos 50)))
      ≡ some f)
    × (f.next_hop_hwaddr ≡ neighbour)
    × (f.hop ≡ (if ltb_ℤ (pos 2) (pos 3) then pos 2 else pos 3))
stale_rrep_example =
    stale_rrep vm1 vm1-AddsLast (pack type_rrep b'1' b'2' (pos 9) (pos 2)) neighbour (pos 3)
      (table_of b'2' (pos 50)) (entry b'2' (pos 50)) refl (route-table_of b'2' (pos 50))
      old_entry-is_stale

update-refines_example :
    view (
      update_rtbl_entry vm1
        (pack type_data b'2' b'1' (pos 9) (pos 2))
        neighbour
        (pos 3)
        (table_of b'2' (pos 98)))
    ≡ updated_map vm1
        (pack type_data b'2' b'1' (pos 9) (pos 2))
        neighbour
        (pos 3)
        (view (table_of b'2' (pos 98)))
update-refines_example =
    update-refines vm1 vm1-AddsLast (pack type_data b'2' b'1' (pos 9) (pos 2)) neighbour (pos 3)
      (table_of b'2' (pos 98)) (entry-Distinct b'2' (pos 98))
