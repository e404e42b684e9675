-- ===== src/Tests/Replies.antt =====
-- Examples for the RREP and the payload.
use odr.Prelude.{◌≡◌, ◌≢◌, refl, [], ◌∷◌, none, some, arith}
use odr.Prelude.Int.{zero_ne_one, ℤ, pos, ◌-ℤ◌, to_char}
use odr.Structs.{OdrPack, Entry, type_rreq, type_rrep, type_data}
use odr.CString.{byte_at, bytes, strncmp_eq, c_string}
use odr.Table.Routes.{route}
use odr.Link.Frames.{push_all, unicast}
use odr.Node.{Node}
use odr.Odr.Rreq.{dest_rrep}
use odr.Odr.Paths.{reverse_path}
use odr.Table.{first_with, entry_exists_for_src, get_index_from_ip}
use odr.Odr.Common.{is_self_dest, is_self_src}
use odr.Odr.Sends.{Sent}
use odr.Odr.Payloads.{data_sent, data_sends}
use odr.Odr.Uncounted.{less_of, payload_uncounted}
use odr.Odr.Valid.{IsValid}
use odr.Odr.{process_pack}
use odr.Tests.{
  vm1, address, eth1, eth2, neighbour, pack, node, knowing, key_of, vm1-AddsLast, knowing-IsValid,
  entry,
}

-- The RREP of vm3 for vm1, and the payload of vm2 for vm3.
abbrev arriving : OdrPack
arriving = pack type_rrep b'1' b'3' (pos 9) (pos 2)

abbrev payload : OdrPack
payload = pack type_data b'2' b'3' (pos 9) (pos 2)

data_sends_example :
    Sent
      (process_pack vm1 payload neighbour (pos 3) (knowing b'3' (pos 98)))
      (data_sent vm1 payload neighbour (pos 3) (knowing b'3' (pos 98)))
data_sends_example =
    data_sends vm1 payload neighbour (pos 3) (knowing b'3' (pos 98)) (b'v' ∷ b'm' ∷ b'1' ∷ [])
      vm1-AddsLast (knowing-IsValid b'3' (pos 98)) refl refl (omega arith, omega arith)

vm2-away : is_self_src vm1 (address b'2') ≡ pos 0
unfolding is_self_src strncmp_eq bytes byte_at
vm2-away = refl

vm3-away : is_self_dest vm1 (address b'3') ≡ pos 0
unfolding is_self_dest strncmp_eq bytes byte_at
vm3-away = refl

-- The node with routes to both.
abbrev between : Node
between = record node {
  rtbl = record (node.rtbl) { entries = entry b'2' (pos 98) ∷ entry b'3' (pos 98) ∷ [] };
}

between-IsValid : IsValid between
unfolding entry_exists_for_src get_index_from_ip c_string bytes byte_at ◌-ℤ◌ to_char
between-IsValid = record {
  table = record { distinct = (refl, (refl, tt)); bounded = (omega arith, (omega arith, tt)) };
  slots = refl;
}

to_vm3 : route (key_of b'3') between.rtbl ≡ some (entry b'3' (pos 98))
unfolding first_with get_index_from_ip c_string bytes byte_at ◌-ℤ◌ to_char
to_vm3 = refl

to_vm2 : route (key_of b'2') between.rtbl ≡ some (entry b'2' (pos 98))
unfolding first_with get_index_from_ip c_string bytes byte_at ◌-ℤ◌ to_char
to_vm2 = refl

ends_apart : key_of b'3' ≢ key_of b'2'
unfolding get_index_from_ip c_string bytes byte_at ◌-ℤ◌ to_char
ends_apart e = absurd (ground (arith, e))

payload_uncounted_example :
    (s : ℤ) × (m : Node) × (f : Entry) × (process_pack vm1 payload neighbour (pos 3) between
      ≡ some (s, m))
    × (route (key_of b'2') m.rtbl ≡ some f)
    × (f.hop ≡ less_of (pos 2) (pos 3))
    × (m.sent ≡ push_all (unicast payload neighbour (pos 4) (eth1 ∷ eth2 ∷ [])) [])
payload_uncounted_example =
    payload_uncounted vm1 vm1-AddsLast payload neighbour (pos 3) between (entry b'2' (pos 98))
      (entry b'3' (pos 98)) between-IsValid refl refl (omega arith, omega arith) vm2-away vm3-away
      ends_apart to_vm2 to_vm3

-- An RREQ of vm2 for vm1.
abbrev asked : OdrPack
asked = pack type_rreq b'2' b'1' (pos 9) (pos 2)

vm2-unknown : route (key_of b'2') node.rtbl ≡ none
unfolding first_with
vm2-unknown = refl

vm3-unknown : route (key_of b'3') node.rtbl ≡ none
unfolding first_with
vm3-unknown = refl

vm1-dest : is_self_dest vm1 (address b'1') ≡ pos 1
unfolding is_self_dest strncmp_eq bytes byte_at
vm1-dest = refl

reverse_path_example :
    Sent
      (process_pack vm1 asked neighbour (pos 3) node)
      (push_all (unicast (dest_rrep asked) neighbour (pos 3) (eth1 ∷ eth2 ∷ [])) [])
reverse_path_example =
    reverse_path vm1 vm1-AddsLast asked neighbour (pos 3) node refl (omega arith, omega arith)
      zero_ne_one vm1-dest vm2-unknown
