-- ===== src/Network/Own.antt =====
-- The RREQs of a node that come back to it.
use odr.Prelude.{ℕ, ◌≡◌, ◌≢◌, ◌∙◌, ap, refl, sym, subst, List, some, arith}
use odr.Prelude.Int.{ℤ, pos, ◌≤ℤ◌, int_laws}
use odr.Structs.{Frame, Out, to_link}
use odr.Table.{get_index_from_ip}
use odr.Odr.Common.{note_sender, is_self_dest}
use odr.Odr.Flood.{Relayed, process_pack-relay, relay_old}
use odr.Odr.{process_pack}
use odr.Main.{get_can_ip, packet_ip}
use odr.Main.Asks.{}
use odr.Network.{World, Net, In, with_node, received, Step, hear, ask, Reach, here, next}
use odr.Network.Ids.{Step-Grows}
use odr.Network.Numbers.{
  own, Old, OldFrames, Numbering, hear-running, hear-OldFrames, hear-Numbering, ask-Numbering,
  ask-OldFrames,
}
use odr.Network.Steps.{with_node-all, with_node_self}

le_self : (x : ℤ) → x ≤ℤ x
le_self x = omega arith

module _ (w : World) (s : ℕ)
    (others : (v : ℕ)
      → v ≢ s
      → get_index_from_ip (w.platform s) (packet_ip (get_can_ip (w.platform v))) ≢ own w s) where
  -- The numbering of node `s` is in order, and all frames that it takes for its own have old ids.
  abbrev pub Orderly : Net → Type 0
  Orderly c =
      ((u : ℕ) → u ≡ s → Numbering w u (c u))
      × ((u : ℕ) → OldFrames w s (c s).running_broadcast_no (c u).sent)

  OldFrames-grow : (x y : ℤ) (t : List Out) → x ≤ℤ y → OldFrames w s x t → OldFrames w s y t
  OldFrames-grow x y t le h f i q = let below = h f i q in omega arith

  -- A frame or a request keeps this, while the numbers are chars.
  Step-Orderly :
      {c d : Net} → Step w c d → (d s).running_broadcast_no ≤ℤ pos 127 → Orderly c → Orderly d
  Step-Orderly {c} (hear a v f i m sent heard go) few (num, frames) =
      let x = (c s).running_broadcast_no in
      let old = frames a f sent in
      let same : (u : ℕ) → (with_node v m c u).running_broadcast_no ≡ (c u).running_broadcast_no =
        with_node-all (λ u n. n.running_broadcast_no ≡ (c u).running_broadcast_no) c v m (λ u. refl)
          (hear-running w v (received f i) (c v) m go) in
      (
        with_node-all (λ u n. u ≡ s → Numbering w u n) c v m num
            (λ e.
              hear-Numbering w v (received f i) (c v) m go
                (subst (λ u. Old w u (c u).running_broadcast_no f.packet) (sym e) old) (num v e)),
        λ u.
            subst (λ y. OldFrames w s y (with_node v m c u).sent) (sym (same s))
              (with_node-all (λ u n. OldFrames w s x n.sent) c v m frames
                (hear-OldFrames w v (received f i) (c v) m go s x old (frames v)) u),
      )
  Step-Orderly {c} (ask v addr r m go) few (num, frames) =
      let up = Step-Grows w {c = c} (ask v addr r m go) s in
      let x = (with_node v m c s).running_broadcast_no in
      let last : v ≡ s → m.running_broadcast_no ≡ x = (λ e.
        subst (λ u. m.running_broadcast_no ≡ (with_node v m c u).running_broadcast_no) e
          (ap (λ n. n.running_broadcast_no) (sym (with_node_self c v m)))) in
      (
        with_node-all (λ u n. u ≡ s → Numbering w u n) c v m num
            (λ e.
              ask-Numbering w v addr r (c v) m go (subst (λ z. z ≤ℤ pos 127) (sym (last e)) few)
                (num v e)),
        with_node-all (λ u n. OldFrames w s x n.sent) c v m
            (λ u. OldFrames-grow (c s).running_broadcast_no x (c u).sent up (frames u))
            (ask-OldFrames w v addr r (c v) m go s x (others v)
              (λ e. (
                num v e,
                subst (λ z. m.running_broadcast_no ≤ℤ z) (last e) (le_self m.running_broadcast_no),
              ))
              (OldFrames-grow (c s).running_broadcast_no x (c v).sent up (frames v))),
      )

  Reach-Orderly :
      {c d : Net} → Reach w c d → (d s).running_broadcast_no ≤ℤ pos 127 → Orderly c → Orderly d
  Reach-Orderly here few h = h
  Reach-Orderly (next r st) few h =
      Step-Orderly st few (Reach-Orderly r (let grows = Step-Grows w st s in omega arith) h)

  -- A node never sends on its own RREQs when they come back to it, in any state that a network
  -- reaches, by whatever way and however late: such a packet only notes the neighbour that
  -- brought it. It is in a frame that some node has sent, within the hop limit, not answered and
  -- for another node. The address of no other node is taken for the node's own; its running
  -- number is at most 127 in the end; and at first that number is not negative, above the id in
  -- the kept packet and the ids of all frames that the node takes for its own, and at most one
  -- above the number in the own slot.
  pub own_ends :
      {c d : Net} (v : ℕ) (f : Frame) (hw : List ℕ) (i : ℤ)
      → Reach w c d
      → Numbering w s (c s)
      → ((u : ℕ) → OldFrames w s (c s).running_broadcast_no (c u).sent)
      → (d s).running_broadcast_no ≤ℤ pos 127
      → In (to_link f) (d v).sent
      → Relayed (w.platform s) f.packet
      → get_index_from_ip (w.platform s) f.packet.src_can_ip_str ≡ own w s
      → process_pack (w.platform s) f.packet hw i (d s)
        ≡ some (
          is_self_dest (w.platform s) f.packet.dest_can_ip_str,
          note_sender (w.platform s) f.packet hw i (d s),
        )
  unfolding note_sender
  own_ends {c} {d} v f hw i run num frames few sent relayed mine =
      let p = w.platform s in
      let (num', frames') =
        Reach-Orderly run few ((λ u e. subst (λ u. Numbering w u (c u)) (sym e) num), frames) in
      let below = frames' v f sent mine in
      let (y, at, close) = (num' s refl).slot in
      process_pack-relay p f.packet hw i (d s) relayed
      ∙ relay_old p (is_self_dest p f.packet.dest_can_ip_str) f.packet i
          (note_sender p f.packet hw i (d s)) {x = y} (rw mine at) (omega int_laws)
