-- ===== src/Tests/Own.antt =====
-- An example for an RREQ that comes back: vm2 has sent it, and hears it again after vm1 did.
use odr.Prelude.{ℕ, ◌≡◌, ◌≢◌, refl, arith, [], ◌∷◌, some, inl, Bool-cases, sym, subst, ◌==◌, inr}
use odr.Prelude.Int.{pos, ◌<ℤ◌, zero_ne_one, ◌-ℤ◌, to_char, int_laws}
use odr.Structs.{Out, to_link}
use odr.CString.{bytes, byte_at, c_string, strncpy, strncmp_eq}
use odr.Table.{get_index_from_ip}
use odr.Link.Sent.{Carries, Anyone}
use odr.Node.{Node, latest_at}
use odr.Odr.Common.{note_sender, is_self_dest}
use odr.Odr.Flood.{Relayed}
use odr.Odr.{process_pack}
use odr.Main.{get_can_ip, packet_ip}
use odr.Network.{Net, with_node, hear, Reach, here, next}
use odr.Network.Numbers.{own, OldFrames, Numbering}
use odr.Network.Own.{own_ends}
use odr.Network.Steps.{with_node-all}
use odr.Tests.{vm1, neighbour, node}
use odr.Tests.Network.{platform_of, flooded, silent, heard}
use odr.Tests.Progress.{named, pair}

-- vm2 after its ninth RREQ.
abbrev sender : Node
sender = record node {
  running_broadcast_no = pos 10;
  latest_rreq =
      pos 0 ∷ pos 0 ∷ pos 10 ∷ pos 0 ∷ pos 0 ∷ pos 0 ∷ pos 0 ∷ pos 0 ∷ pos 0 ∷ pos 0 ∷ pos 0 ∷ [];
  sent = to_link flooded ∷ [];
}

abbrev asked : Net
asked = with_node 2 sender silent

sender-Numbering : Numbering pair 2 sender
unfolding get_index_from_ip c_string bytes byte_at get_can_ip ◌-ℤ◌ to_char strncpy latest_at
sender-Numbering = record {
  positive = omega arith;
  source = omega arith;
  slot = (pos 10, refl, omega int_laws);
}

frames-old : (u : ℕ) → OldFrames pair 2 (pos 10) (asked u).sent
frames-old =
    with_node-all (λ u n. OldFrames pair 2 (pos 10) n.sent) silent 2 sender (λ u f i. elim i [ ])
      vm2
  where
    old : Out → Type 0
    old = Carries (λ k. k.rreq.broadcast_id <ℤ pos 10) Anyone

    vm2 : OldFrames pair 2 (pos 10) sender.sent
    vm2 f (inl e) mine = subst old (sym e) (omega arith)
    vm2 f (inr i) mine = elim i [ ]

abbrev after : Net
after = with_node 1 heard.0 asked

run : Reach pair asked after
run = next here (hear 2 1 flooded (pos 3) heard.0 (inl refl) refl heard.1)

vm1-other : get_index_from_ip (platform_of 2) (packet_ip (get_can_ip vm1)) ≢ own pair 2
unfolding get_index_from_ip c_string bytes byte_at get_can_ip packet_ip ◌-ℤ◌ to_char strncpy
vm1-other e = absurd (ground arith)

others :
    (v : ℕ)
    → v ≢ 2
    → get_index_from_ip (platform_of 2) (packet_ip (get_can_ip (named (v == 2)))) ≢ own pair 2
others v ne = elim (Bool-cases (v == 2)) [
  | inl same ↦ absurd (ground arith)
  | inr other ↦ rw other vm1-other
]

flooded-Relayed : Relayed (platform_of 2) flooded.packet
unfolding is_self_dest strncmp_eq bytes byte_at
flooded-Relayed = record {
  is_rreq = refl;
  in_range = (omega arith, omega arith);
  unanswered = zero_ne_one;
  elsewhere = zero_ne_one;
}

flooded-own : get_index_from_ip (platform_of 2) flooded.packet.src_can_ip_str ≡ own pair 2
unfolding get_index_from_ip c_string bytes byte_at get_can_ip ◌-ℤ◌ to_char strncpy
flooded-own = refl

own_ends_example :
    process_pack (platform_of 2) flooded.packet neighbour (pos 3) sender
    ≡ some (
      is_self_dest (platform_of 2) flooded.packet.dest_can_ip_str,
      note_sender (platform_of 2) flooded.packet neighbour (pos 3) sender,
    )
own_ends_example =
    own_ends pair 2 others 2 flooded neighbour (pos 3) run sender-Numbering frames-old (omega arith)
      (inl refl) flooded-Relayed flooded-own
