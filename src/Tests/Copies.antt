-- ===== src/Tests/Copies.antt =====
-- An example for the copies of an RREQ: vm2 has sent it, and vm1 hears it and sends it on.
use odr.Prelude.{ℕ, ◌+◌, ◌≤◌, ◌<◌, ◌≡◌, refl, arith, ◌∷◌, [], some, inl, sym, subst}
use odr.Prelude.Int.{pos, ◌≤ℤ◌}
use odr.Structs.{to_link}
use odr.Node.{latest_at}
use odr.Odr.Locals.{SameLocals, process_pack-SameLocals}
use odr.Network.{World, Net, with_node, received, hear, Reach, here, next}
use odr.Network.Steps.{on_frame-Ensures, with_node-all}
use odr.Network.Ids.{IdsOk}
use odr.Network.Copies.{left, relays, copies-bounded}
use odr.Tests.{vm1, node}
use odr.Tests.Network.{platform_of, flooded, silent, start, heard}

-- Three nodes on one link.
abbrev three : World
three = record { platform = platform_of; hears = λ s f v i. (i ≡ pos 3) × (v < 3) }

node-slot : latest_at (pos 2) node.latest_rreq ≡ some (pos 0)
unfolding latest_at
node-slot = refl

start-IdsOk : (v : ℕ) → IdsOk three (pos 2) v (start v)
start-IdsOk =
    with_node-all (IdsOk three (pos 2)) silent 2 (record node { sent = to_link flooded ∷ [] })
      (λ v. record {
        slot = λ e. (pos 0, node-slot, omega arith, omega arith);
        source = omega arith;
        frames = tt;
      })
      (record {
        slot = λ e. (pos 0, node-slot, omega arith, omega arith);
        source = omega arith;
        frames = (omega arith, tt);
      })

abbrev after : Net
after = with_node 1 heard.0 start

run : Reach three start after
run = next here (hear 2 1 flooded (pos 3) heard.0 (inl refl) (refl, omega arith) heard.1)

after-few : (v : ℕ) → (after v).running_broadcast_no ≤ℤ pos 128
after-few =
    with_node-all (λ v n. n.running_broadcast_no ≤ℤ pos 128) start 1 heard.0
      (with_node-all (λ v n. n.running_broadcast_no ≤ℤ pos 128) silent 2
        (record node { sent = to_link flooded ∷ [] }) (λ v. omega arith) (omega arith))
      (subst (λ x. x ≤ℤ pos 128) (sym same.running) (omega arith))
  where
    same : SameLocals node heard.0
    same =
        on_frame-Ensures vm1 (SameLocals node) (received flooded (pos 3)) node heard.0
          (process_pack-SameLocals vm1 flooded.packet flooded.h_source (pos 3) node) heard.1

copies-bounded_example :
    (left three (pos 2) (pos 9) 3 after + relays three (pos 2) (pos 9) run
      ≤ left three (pos 2) (pos 9) 3 start)
    × (left three (pos 2) (pos 9) 3 start ≤ 3)
copies-bounded_example =
    copies-bounded three (pos 2) (pos 9) 3 (λ s v f i h. h.1) run start-IdsOk after-few
