-- ===== src/Tests/Program.antt =====
-- An example for a whole run.
use odr.Prelude.{ℕ, ◌≡◌, refl, List, [], ◌∷◌, none, some, inl}
use odr.Prelude.Int.{ℤ, pos}
use odr.Structs.{type_rreq}
use odr.CString.{bytes}
use odr.Node.{Node}
use odr.Odr.Valid.{IsValid}
use odr.Hwaddrs.{Ifreq}
use odr.Main.{Round, running, request}
use odr.Main.Program.{Unset, looped, run_odr, run_odr-runs}
use odr.Tests.{vm1, vm1-AddsLast, vm1-Healthy, own-Slot, vm2-Slot, pack, neighbour}

-- A parser that reads 5.
abbrev value : List ℕ → ℤ
value t = pos 5

abbrev eth3 : Ifreq
eth3 = record {
  ifr_name = bytes 16 (b'e' ∷ b't' ∷ b'h' ∷ b'3' ∷ []);
  ifr_addr = [];
  hwaddr = neighbour;
  ifindex = pos 3;
}

abbrev unset : Unset
unset = record {
  packet = pack type_rreq b'0' b'0' (pos 0) (pos 0);
  msg = bytes 32 [];
  reply = bytes 32 [];
  addr = [];
}

-- An RREQ of vm2 and a request, then a silent round.
abbrev some_rounds : List Round
some_rounds =
    record {
      frame = some (record {
        packet = pack type_rreq b'2' b'3' (pos 9) (pos 2);
        h_source = neighbour;
        sll_ifindex = pos 3;
      });
      datagram =
          some
            (request (b'c' ∷ []) (record { msg = bytes 32 (b'3' ∷ []); forced_discovery = pos 0 }));
    }
    ∷ record { frame = none; datagram = none }
    ∷ []

run_odr-runs_example :
    (m : Node) × (run_odr vm1 value ((b'5' ∷ []) ∷ []) (eth3 ∷ []) unset some_rounds
      ≡ looped (running m))
    × IsValid m
run_odr-runs_example =
    run_odr-runs vm1 vm1-AddsLast own-Slot vm1-Healthy (b'v' ∷ b'm' ∷ b'1' ∷ []) refl value
      (b'5' ∷ []) eth3 [] unset some_rounds (((inl refl, vm2-Slot), tt), ((tt, tt), tt))
