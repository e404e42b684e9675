-- ===== src/Tests/Printing.antt =====
-- Examples for what is printed.
use odr.Prelude.{◌≡◌, refl, arith, [], ◌∷◌}
use odr.Print.{print_hwaddr, hwa_row}
use odr.Print.Hex.{read_hwaddr, read_row, hwaddr-printed}
use odr.Prelude.Int.{pos}
use odr.Hwaddrs.{HwaInfo}
use odr.Tests.{neighbour}

abbrev printed : HwaInfo
printed = record {
  if_name = b'e' ∷ b't' ∷ b'h' ∷ b'1' ∷ [];
  if_haddr = neighbour;
  if_index = pos 3;
  ip_alias = pos 0;
  ip_addr = [];
}

hwaddr-printed_example :
    (read_hwaddr 6 (print_hwaddr neighbour) ≡ neighbour)
    × (read_row (hwa_row printed).hw ≡ neighbour)
hwaddr-printed_example =
    hwaddr-printed printed refl
      (omega arith, (omega arith, (omega arith, (omega arith, (omega arith, (omega arith, tt))))))
