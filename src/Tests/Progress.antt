-- ===== src/Tests/Progress.antt =====
-- An example for a network of two names: vm2 has sent an RREQ for vm3, and vm1 hears it.
use odr.Prelude.{ℕ, ◌≡◌, refl, arith, List, [], ◌∷◌, some, ◌==◌, Bool, true, false, inl}
use odr.Prelude.Int.{pos, ◌-ℤ◌, to_char}
use odr.Structs.{to_link}
use odr.CString.{bytes, byte_at, c_string, strncpy}
use odr.Platform.{Platform, AddsLast}
use odr.Table.{get_index_from_ip}
use odr.Link.Frames.{Healthy}
use odr.Node.{Node}
use odr.Odr.Safe.{Slot}
use odr.Odr.Total.{KnownType}
use odr.Main.{request, running, get_can_ip, packet_ip, on_frame, on_datagram}
use odr.Network.{World, Net, with_node, received, hear, Reach, here, next}
use odr.Network.Steps.{with_node-all}
use odr.Network.Progress.{Sane, NodeOk, Reach-runs}
use odr.Tests.{vm1, vm1-Healthy, vm1-AddsLast, node, node-IsValid}
use odr.Tests.Network.{platform_of, flooded, silent, start, heard, asking, client}

-- vm2, or vm1.
abbrev pub named : Bool → Platform
named true = platform_of 2
named false = vm1

abbrev pub pair : World
pair = record { platform = λ v. named (v == 2); hears = λ s f v i. i ≡ pos 3 }

own : (b : Bool) → Slot (get_index_from_ip (named b) (get_can_ip (named b)))
unfolding get_index_from_ip c_string bytes byte_at get_can_ip ◌-ℤ◌ to_char strncpy
own true = (omega arith, omega arith)
own false = (omega arith, omega arith)

slots : (a b : Bool) → Slot (get_index_from_ip (named b) (packet_ip (get_can_ip (named a))))
unfolding get_index_from_ip c_string bytes byte_at get_can_ip packet_ip ◌-ℤ◌ to_char strncpy
slots true true = (omega arith, omega arith)
slots true false = (omega arith, omega arith)
slots false true = (omega arith, omega arith)
slots false false = (omega arith, omega arith)

vm_name : Bool → List ℕ
vm_name true = b'v' ∷ b'm' ∷ b'2' ∷ []
vm_name false = b'v' ∷ b'm' ∷ b'1' ∷ []

named-name : (b : Bool) → (named b).gethostname ≡ some (vm_name b)
unfolding vm_name
named-name true = refl
named-name false = refl

named-AddsLast : (b : Bool) → AddsLast (named b)
named-AddsLast true = record { rtbl_last = λ e es. refl; if_last = λ i is. refl }
named-AddsLast false = vm1-AddsLast

named-Healthy : (b : Bool) → Healthy (named b)
named-Healthy true = record { sends = λ s o. omega arith }
named-Healthy false = vm1-Healthy

pub pair-Sane : Sane pair
pair-Sane = record {
  last = λ v. named-AddsLast (v == 2);
  up = λ v. named-Healthy (v == 2);
  name = λ v. vm_name (v == 2);
  named = λ v. named-name (v == 2);
  own = λ v. own (v == 2);
  slots = λ u v. slots (u == 2) (v == 2);
}

flooded-slots : (b : Bool) → Slot (get_index_from_ip (named b) flooded.packet.src_can_ip_str)
unfolding get_index_from_ip c_string bytes byte_at ◌-ℤ◌ to_char
flooded-slots true = (omega arith, omega arith)
flooded-slots false = (omega arith, omega arith)

start-NodeOk : (v : ℕ) → NodeOk pair (start v)
start-NodeOk =
    with_node-all (λ v. NodeOk pair) silent 2 (record node { sent = to_link flooded ∷ [] })
      (λ v. record { valid = node-IsValid; frames = tt })
      (record {
        valid = record { table = node-IsValid.table; slots = refl };
        frames = ((inl refl, λ v. flooded-slots (v == 2)), tt);
      })

-- vm1 hears the frame.
abbrev after : Net
after = with_node 1 heard.0 start

run : Reach pair start after
run = next here (hear 2 1 flooded (pos 3) heard.0 (inl refl) refl heard.1)

Reach-runs_example :
    KnownType flooded.packet
    × ((m : Node) × (on_frame (named false) (some (received flooded (pos 3))) (after 1)
          ≡ running m))
    × ((m : Node) × (on_datagram (named false) (some (request client asking)) (after 1)
          ≡ running m))
Reach-runs_example =
    Reach-runs pair pair-Sane run start-NodeOk 2 1 flooded (pos 3) client asking (inl refl)
