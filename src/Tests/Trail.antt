-- ===== src/Tests/Trail.antt =====
-- Two nodes on the way between vm2 and vm3.
use odr.Prelude.{[], ◌∷◌, some}
use odr.Prelude.Int.{pos}
use odr.Platform.{Platform}
use odr.Network.Trail.{Relay}
use odr.Tests.{vm1, node, neighbour}

abbrev pub vm4 : Platform
vm4 = record vm1 { gethostname = some (b'v' ∷ b'm' ∷ b'4' ∷ []) }

abbrev pub at_vm1 : Relay
at_vm1 = record {
  platform = vm1;
  node = node;
  hw = neighbour;
  far_hw = 4 ∷ 4 ∷ 4 ∷ 4 ∷ 4 ∷ 4 ∷ [];
  far_ifindex = pos 4;
  ifindex = pos 3;
}

abbrev pub at_vm4 : Relay
at_vm4 = record {
  platform = vm4;
  node = node;
  hw = 1 ∷ 1 ∷ 1 ∷ 1 ∷ 1 ∷ 1 ∷ [];
  far_hw = neighbour;
  far_ifindex = pos 3;
  ifindex = pos 4;
}
