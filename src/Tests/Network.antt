-- ===== src/Tests/Network.antt =====
-- Examples for the network: vm1 hears an RREQ of vm2 for vm3, and then asks for vm3 itself.
use odr.Prelude.{ℕ, ◌+◌, ◌≡◌, refl, arith, List, [], ◌∷◌, some, inl}
use odr.Prelude.Int.{ℤ, pos}
use odr.Structs.{OdrPack, OdrReq, Entry, Frame, to_link, type_rreq, eth_p_aa19}
use odr.CString.{bytes}
use odr.Platform.{Platform, AddsLast}
use odr.Node.{Node}
use odr.Main.{request, running, on_datagram, on_frame}
use odr.Main.Loop.{on_frame-runs, on_datagram-runs}
use odr.Network.{World, Net, with_node, received, hear, ask, Reach, here, next}
use odr.Network.Steps.{with_node-all}
use odr.Network.Hops.{HopsOk, Reach-HopsOk}
use odr.Table.{first_with}
use odr.Table.Routes.{route}
use odr.Odr.Valid.{IsValid}
use odr.Network.Neighbours.{Heard, AllHeard, Reach-AllHeard}
use odr.Tests.{
  vm1, vm1-Healthy, vm1-AddsLast, node, node-IsValid, pack, neighbour, vm2-Slot, own-Slot,
}

abbrev pub platform_of : ℕ → Platform
platform_of v = record vm1 { gethostname = some (b'v' ∷ b'm' ∷ (48 + v) ∷ []) }

-- All nodes hear all frames, at the interface 3.
abbrev ether : World
ether = record { platform = platform_of; hears = λ s f v i. i ≡ pos 3 }

platform_of-AddsLast : (v : ℕ) → AddsLast (platform_of v)
platform_of-AddsLast v = record { rtbl_last = λ e es. refl; if_last = λ i is. refl }

abbrev rreq : OdrPack
rreq = pack type_rreq b'2' b'3' (pos 9) (pos 2)

abbrev pub flooded : Frame
flooded = record {
  sll_ifindex = pos 3;
  h_dest = neighbour;
  h_source = neighbour;
  h_proto = eth_p_aa19;
  packet = rreq;
}

-- vm2 has sent the RREQ.
abbrev pub silent : Net
silent v = node

abbrev pub start : Net
start = with_node 2 (record node { sent = to_link flooded ∷ [] }) silent

abbrev pub asking : OdrReq
asking = record { msg = bytes 32 (b'3' ∷ []); forced_discovery = pos 0 }

abbrev pub client : List ℕ
client = b'c' ∷ []

abbrev pub heard :
    (m : Node) × (on_frame vm1 (some (received flooded (pos 3))) node ≡ running m) × IsValid m
heard =
    on_frame-runs vm1 vm1-AddsLast own-Slot vm1-Healthy (b'v' ∷ b'm' ∷ b'1' ∷ []) refl
      (some (received flooded (pos 3))) node (inl refl, vm2-Slot) node-IsValid

abbrev asked :
    (m : Node) × (on_datagram vm1 (some (request client asking)) heard.0 ≡ running m) × IsValid m
asked =
    on_datagram-runs vm1 vm1-AddsLast own-Slot vm1-Healthy (b'v' ∷ b'm' ∷ b'1' ∷ []) refl
      (some (request client asking)) heard.0 tt heard.2

abbrev end : Net
end = with_node 1 asked.0 (with_node 1 heard.0 start)

run : Reach ether start end
run =
    next (next here (hear 2 1 flooded (pos 3) heard.0 (inl refl) refl heard.1))
      (ask 1 client asking asked.0 asked.1)

start-HopsOk : (v : ℕ) → HopsOk (start v)
start-HopsOk =
    with_node-all (λ v. HopsOk) silent 2 (record node { sent = to_link flooded ∷ [] })
      (λ v. record { valid = node-IsValid; source = (omega arith, omega arith); frames = tt })
      (record {
        valid = record { table = node-IsValid.table; slots = refl };
        source = (omega arith, omega arith);
        frames = ((omega arith, omega arith), tt);
      })

Reach-HopsOk_example : HopsOk (end 1)
Reach-HopsOk_example = Reach-HopsOk ether platform_of-AddsLast run start-HopsOk 1

no_routes : {A : Type 0} (j : ℤ) (e : Entry) → route j node.rtbl ≡ some e → A
unfolding first_with
no_routes j e h = absurd (ground arith)

start-AllHeard : AllHeard ether start
start-AllHeard =
    with_node-all (λ v n. (j : ℤ) (e : Entry) → route j n.rtbl ≡ some e → Heard ether start v e)
      silent 2 (record node { sent = to_link flooded ∷ [] }) (λ v j e h. no_routes j e h)
      (λ j e h. no_routes j e h)

Reach-AllHeard_example : AllHeard ether end
Reach-AllHeard_example = Reach-AllHeard ether platform_of-AddsLast run start-AllHeard
