-- ===== src/Tests/Packets.antt =====
-- Examples for the packets.
use odr.Prelude.{
  ℕ, get_elem?, length, ap, ◌∙◌, ◌≡◌, ◌≢◌, refl, List, [], ◌∷◌, none, some, arith, inl, All,
}
use odr.Prelude.Int.{zero_ne_one, ℤ, pos, ◌≤ℤ◌, ◌-ℤ◌, to_char}
use odr.Structs.{OdrPack, type_rreq, minus_one}
use odr.CString.{byte_at, bytes, strncmp_eq, c_string}
use odr.Table.{
  get_index_from_ip, update_rtbl_entry, update_rreq, learn, add_new_entry, entry_exists_for_src,
  first_with, rreq_offer,
}
use odr.Table.Routes.{route}
use odr.Link.Frames.{push_all, flood, unicast}
use odr.Node.{Node, latest_at}
use odr.Odr.Common.{is_self_dest}
use odr.Odr.Rreq.{count_hop, known_rrep, answered_rreq}
use odr.Odr.Safe.{Succeeds}
use odr.Odr.Total.{process_pack-Succeeds}
use odr.Odr.Valid.{IsValid, process_pack-IsValid}
use odr.Odr.Cases.{Ensures}
use odr.Odr.Flood.{Relayed}
use odr.Odr.Again.{AllSentOn, relay_again}
use odr.Odr.Sends.{Sent, Fresh, noted, rreq_floods, rreq_answered}
use odr.Odr.{process_pack}
use odr.Tests.{
  vm1, address, eth1, eth2, neighbour, pack, node, entry, knowing, key_of, vm1-AddsLast,
  vm1-Healthy, node-IsValid, vm2-Slot,
}

-- An RREQ of vm2 for vm3, and the same by another neighbour; an RREQ for vm1.
abbrev passing : ℤ → OdrPack
passing hop = pack type_rreq b'2' b'3' (pos 9) hop

abbrev arriving : OdrPack
arriving = pack type_rreq b'2' b'1' (pos 9) (pos 2)

process_pack-Succeeds_example : Succeeds (process_pack vm1 (passing (pos 2)) neighbour (pos 3) node)
process_pack-Succeeds_example =
    process_pack-Succeeds vm1 vm1-AddsLast vm1-Healthy (b'v' ∷ b'm' ∷ b'1' ∷ []) refl
      (passing (pos 2)) neighbour (pos 3) node (inl refl) vm2-Slot node-IsValid

process_pack-IsValid_example :
    Ensures IsValid (process_pack vm1 (passing (pos 2)) neighbour (pos 3) node)
process_pack-IsValid_example =
    process_pack-IsValid vm1 vm1-AddsLast (passing (pos 2)) neighbour (pos 3) node node-IsValid

vm3-elsewhere : is_self_dest vm1 (address b'3') ≢ pos 1
unfolding is_self_dest strncmp_eq bytes byte_at
vm3-elsewhere = zero_ne_one

passing-Relayed : (hop : ℤ) → hop ≤ℤ pos 15 → Relayed vm1 (passing hop)
passing-Relayed hop h = record {
  is_rreq = refl;
  in_range = (h, h);
  unanswered = zero_ne_one;
  elsewhere = vm3-elsewhere;
}

-- The RREQ is new to the node, with or without a route to vm3.
passing-Fresh : (n : Node) → n.latest_rreq ≡ node.latest_rreq → Fresh vm1 (passing (pos 2)) n
unfolding latest_at get_index_from_ip c_string bytes byte_at ◌-ℤ◌ to_char
passing-Fresh n h = record {
  relayed = passing-Relayed (pos 2) (omega arith);
  slot = vm2-Slot;
  slots = ap length h ∙ node-IsValid.slots;
  latest = pos 0;
  recorded = ap (λ l. get_elem? l 2) h;
  above = omega arith;
}

vm3-unknown : route (key_of b'3') (noted vm1 (passing (pos 2)) neighbour (pos 3) node) ≡ none
unfolding update_rtbl_entry update_rreq learn entry_exists_for_src add_new_entry first_with
    rreq_offer get_index_from_ip c_string bytes byte_at ◌-ℤ◌ to_char
vm3-unknown = refl

rreq_floods_example :
    Sent
      (process_pack vm1 (passing (pos 2)) neighbour (pos 3) node)
      (push_all (flood (count_hop (passing (pos 2))) (pos 3) (eth1 ∷ eth2 ∷ [])) [])
rreq_floods_example =
    rreq_floods vm1 (passing (pos 2)) neighbour (pos 3) node (passing-Fresh node refl)
      (inl vm3-unknown)

vm3-known :
    route (key_of b'3') (noted vm1 (passing (pos 2)) neighbour (pos 3) (knowing b'3' (pos 98)))
    ≡ some (entry b'3' (pos 98))
unfolding update_rtbl_entry update_rreq learn entry_exists_for_src add_new_entry first_with
    rreq_offer get_index_from_ip c_string bytes byte_at ◌-ℤ◌ to_char
vm3-known = refl

rreq_answered_example :
    Sent (process_pack vm1 (passing (pos 2)) neighbour (pos 3) (knowing b'3' (pos 98))) (
      push_all
        (flood
          (answered_rreq (known_rrep (count_hop (passing (pos 2))) (pos 3)))
          minus_one
          (eth1 ∷ eth2 ∷ []))
        (push_all
          (unicast
            (known_rrep (count_hop (passing (pos 2))) (pos 3))
            neighbour
            (pos 4)
            (eth1 ∷ eth2 ∷ []))
          []))
rreq_answered_example =
    rreq_answered vm1 (passing (pos 2)) neighbour (pos 3) (knowing b'3' (pos 98))
      (entry b'3' (pos 98)) (passing-Fresh (knowing b'3' (pos 98)) refl) vm3-known zero_ne_one

-- An RREQ whose id is above the chars.
abbrev beyond : OdrPack
beyond = pack type_rreq b'2' b'3' (pos 200) (pos 2)

zeros-chars : All (λ x. x ≤ℤ pos 127) node.latest_rreq
zeros-chars = ground arith

beyond-Relayed : Relayed vm1 beyond
unfolding is_self_dest strncmp_eq bytes byte_at
beyond-Relayed = record {
  is_rreq = refl;
  in_range = (omega arith, omega arith);
  unanswered = zero_ne_one;
  elsewhere = zero_ne_one;
}

-- It comes twice, by both interfaces.
abbrev ways : List (List ℕ × ℤ)
ways = (neighbour, pos 3) ∷ (neighbour, pos 4) ∷ []

relay_again_example : AllSentOn vm1 beyond ways node
relay_again_example =
    relay_again vm1 beyond ways node beyond-Relayed (omega arith) vm2-Slot node-IsValid.slots
      zeros-chars
