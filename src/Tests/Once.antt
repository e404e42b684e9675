-- ===== src/Tests/Once.antt =====
-- An example for a second copy of an RREQ, with a request and a payload in between.
use odr.Prelude.{ℕ, ◌≤◌, ◌≡◌, ◌≢◌, refl, subst, arith, List, [], ◌∷◌, none, some, inr}
use odr.Prelude.Int.{ℤ, pos, ◌+ℤ◌, ◌≤ℤ◌, ◌-ℤ◌, to_char, zero_ne_one}
use odr.Structs.{OdrPack, OdrReq, type_rreq, type_data}
use odr.CString.{bytes, byte_at, strncmp_eq, strncpy, c_string}
use odr.Table.{get_index_from_ip}
use odr.Node.{Node, latest_at}
use odr.Odr.Common.{is_self_dest, note_sender}
use odr.Odr.Cases.{Ensures}
use odr.Odr.Valid.{IsValid, process_pack-IsValid}
use odr.Odr.Flood.{Relayed, relay_once}
use odr.Odr.{process_pack}
use odr.Main.{Round, request, running, loop, get_can_ip}
use odr.Main.Loop.{loop-runs}
use odr.Main.Once.{relay_once_ever}
use odr.Main.Floods.{floods, floods-bounded}
use odr.Tests.{
  vm1, node, node-IsValid, pack, address, neighbour, vm1-AddsLast, vm1-Healthy, own-Slot, vm2-Slot,
}

abbrev copy : ℤ → OdrPack
copy hop = pack type_rreq b'2' b'3' (pos 9) hop

copy-Relayed : (hop : ℕ) → hop ≤ 15 → Relayed vm1 (copy (pos hop))
unfolding is_self_dest strncmp_eq bytes byte_at
copy-Relayed hop h = record {
  is_rreq = refl;
  in_range = (omega arith, omega arith);
  unanswered = zero_ne_one;
  elsewhere = zero_ne_one;
}

abbrev first :
    (s : ℤ) × (m : Node) × (process_pack vm1 (copy (pos 2)) neighbour (pos 3) node ≡ some (s, m))
    × (process_pack vm1 (copy (pos 3)) neighbour (pos 4) m
        ≡ some
            (is_self_dest vm1 (address b'3'), note_sender vm1 (copy (pos 3)) neighbour (pos 4) m))
first =
    relay_once vm1 (copy (pos 2)) (copy (pos 3)) neighbour neighbour (pos 3) (pos 4) node
      (copy-Relayed 2 (omega arith)) (copy-Relayed 3 (omega arith)) refl refl (omega arith)
      (omega arith) vm2-Slot refl

first-IsValid : IsValid first.1
first-IsValid =
    subst (Ensures IsValid) first.2
      (process_pack-IsValid vm1 vm1-AddsLast (copy (pos 2)) neighbour (pos 3) node node-IsValid)

abbrev asking : OdrReq
asking = record { msg = bytes 32 (b'3' ∷ []); forced_discovery = pos 0 }

-- A payload of vm2 for vm3 and a request, then a silent round.
abbrev between : List Round
between =
    record {
      frame = some (record {
        packet = pack type_data b'2' b'3' (pos 9) (pos 2);
        h_source = neighbour;
        sll_ifindex = pos 3;
      });
      datagram = some (request (b'c' ∷ []) asking);
    }
    ∷ record { frame = none; datagram = none }
    ∷ []

abbrev later : (u : Node) × (loop vm1 between first.1 ≡ running u) × IsValid u
later =
    loop-runs vm1 vm1-AddsLast own-Slot vm1-Healthy (b'v' ∷ b'm' ∷ b'1' ∷ []) refl between first.1
      (((inr (inr refl), vm2-Slot), tt), ((tt, tt), tt)) first-IsValid

vm2_not_own : get_index_from_ip vm1 (address b'2') ≢ get_index_from_ip vm1 (get_can_ip vm1)
unfolding get_index_from_ip c_string bytes byte_at get_can_ip ◌-ℤ◌ to_char strncpy
vm2_not_own e = absurd (ground arith)

relay_once_ever_example :
    process_pack vm1 (copy (pos 3)) neighbour (pos 4) later.0
    ≡ some
        (is_self_dest vm1 (address b'3'), note_sender vm1 (copy (pos 3)) neighbour (pos 4) later.0)
relay_once_ever_example =
    relay_once_ever vm1 (copy (pos 2)) (copy (pos 3)) neighbour neighbour (pos 3) (pos 4) node
      first.0 first.1 between later.0 (copy-Relayed 2 (omega arith)) (copy-Relayed 3 (omega arith))
      refl (omega arith) (omega arith) (omega arith) vm2-Slot vm2_not_own refl first.2
      ((λ e. omega arith), (tt, tt)) later.1

-- Two copies of the RREQ, and a newer one with a request.
abbrev copies : List Round
copies =
    record {
      frame = some (record { packet = copy (pos 2); h_source = neighbour; sll_ifindex = pos 3 });
      datagram = none;
    }
    ∷ record {
      frame = some (record { packet = copy (pos 3); h_source = neighbour; sll_ifindex = pos 4 });
      datagram = none;
    }
    ∷ record {
      frame = some (record {
        packet = pack type_rreq b'2' b'3' (pos 10) (pos 2);
        h_source = neighbour;
        sll_ifindex = pos 3;
      });
      datagram = some (request (b'c' ∷ []) asking);
    }
    ∷ []

node-latest : latest_at (get_index_from_ip vm1 (address b'2')) node.latest_rreq ≡ some (pos 0)
unfolding latest_at get_index_from_ip c_string bytes byte_at ◌-ℤ◌ to_char
node-latest = refl

floods-bounded_example :
    (pos (floods vm1 (get_index_from_ip vm1 (address b'2')) copies node) +ℤ pos 0) ≤ℤ pos 127
floods-bounded_example =
    floods-bounded vm1 (get_index_from_ip vm1 (address b'2')) vm2_not_own copies node (pos 0)
      ((λ e. omega arith), ((λ e. omega arith), ((λ e. omega arith), tt))) (omega arith)
      (omega arith) node-latest
