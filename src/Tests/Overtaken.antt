-- ===== src/Tests/Overtaken.antt =====
-- An example for two clients: the second one asks, and a reply for the node comes.
use odr.Prelude.{ℕ, ◌≡◌, ◌≢◌, refl, arith, List, [], ◌∷◌, ◌++◌, All, none, some, inr}
use odr.Prelude.Int.{pos, ◌-ℤ◌, to_char}
use odr.Structs.{OdrReq, OdrReply, Out, to_client, type_data}
use odr.CString.{bytes, byte_at, c_string}
use odr.Table.{get_index_from_ip}
use odr.Link.Sent.{Carries}
use odr.Node.{Node}
use odr.Odr.Safe.{Slot}
use odr.Odr.Valid.{IsValid}
use odr.Main.{Round, running, handle_request, loop}
use odr.Main.Clients.{overtaken}
use odr.Main.Loop.{loop-runs}
use odr.Main.Request.{handle_request-IsValid}
use odr.Tests.{
  vm1, address, neighbour, pack, node, vm1-AddsLast, vm1-Healthy, node-IsValid, own-Slot,
}

abbrev asking : OdrReq
asking = record { msg = bytes 32 (b'3' ∷ []); forced_discovery = pos 0 }

abbrev first : List ℕ
first = b'c' ∷ []

abbrev second : List ℕ
second = b'd' ∷ []

first-ne-second : first ≢ second
first-ne-second e = absurd (ground arith)

abbrev reply : OdrReply
reply = record { time = bytes 32 []; ip = address b'2'; port = pos 57575 }

-- The first client had one reply.
abbrev before : Node
before = record node { sent = to_client first reply ∷ [] }

abbrev asked : (m : Node) × (handle_request vm1 second asking before ≡ some m) × IsValid m
asked =
    handle_request-IsValid vm1 second asking before
      (record { table = node-IsValid.table; slots = refl }) own-Slot

-- A payload of vm1's own comes back.
abbrev rounds : List Round
rounds =
    record {
      frame = some (record {
        packet = pack type_data b'1' b'2' (pos 9) (pos 2);
        h_source = neighbour;
        sll_ifindex = pos 3;
      });
      datagram = none;
    }
    ∷ []

vm1-Slot : Slot (get_index_from_ip vm1 (address b'1'))
unfolding get_index_from_ip c_string bytes byte_at ◌-ℤ◌ to_char
vm1-Slot = (omega arith, omega arith)

abbrev after : (u : Node) × (loop vm1 rounds asked.0 ≡ running u) × IsValid u
after =
    loop-runs vm1 vm1-AddsLast own-Slot vm1-Healthy (b'v' ∷ b'm' ∷ b'1' ∷ []) refl rounds asked.0
      (((inr (inr refl), vm1-Slot), tt), tt) asked.2

overtaken_example :
    (since : List Out) × (after.0.sent ≡ since ++ before.sent)
    × All (Carries (λ k. Unit) (λ addr. addr ≢ first)) since
overtaken_example =
    overtaken vm1 first second asking before asked.0 after.0 rounds first-ne-second asked.1 (tt, tt)
      after.1
