-- ===== src/Network/Neighbours.antt =====
-- Where the next hops of the nodes of a network come from.
use odr.Prelude.{ℕ, ◌≡◌, ◌⊎◌, sym, ap, subst, ◌∙◌, List, some, arith, inl, inr}
use odr.Prelude.Int.{ℤ}
use odr.Structs.{OdrPack, Entry, Frame, Out, to_link}
use odr.Platform.{Platform, AddsLast}
use odr.Table.{Rtbl, update_rtbl_entry}
use odr.Table.Routes.{route}
use odr.Table.Senders.{Via, update-sender}
use odr.Node.{Node}
use odr.Link.Sent.{Anyone}
use odr.Odr.Emits.{anything}
use odr.Odr.Spread.{process_pack-sent}
use odr.Odr.Tables.{process_pack-table}
use odr.Main.{FrameIn, running, on_frame}
use odr.Main.Asks.{handle_request-sent}
use odr.Main.Routes.{handle_request-table}
use odr.Network.{World, Net, with_node, In, received, Step, hear, ask, Reach, here, next}
use odr.Network.Steps.{on_frame-Ensures, on_datagram-handled, with_node-all}

-- A frame that reached node `v` through the entry's interface, from the entry's next hop.
abbrev pub Heard : World → Net → ℕ → Entry → Type 0
Heard w c v e =
    (s : ℕ) × (f : Frame) × In (to_link f) (c s).sent
    × w.hears s f v e.if_no
    × (f.h_source ≡ e.next_hop_hwaddr)

-- A step takes nothing back.
pub Step-In :
    (w : World) {c d : Net} → Step w c d → (o : Out) (u : ℕ) → In o (c u).sent → In o (d u).sent
Step-In w {c} (hear s v f i m sent heard go) o u =
    with_node-all (λ u n. In o (c u).sent → In o n.sent) c v m (λ u h. h)
      (λ h.
        on_frame-Ensures (w.platform v) (λ n. In o n.sent) (received f i) (c v) m
          (process_pack-sent (w.platform v) (λ _. Unit) Anyone (In o) (λ x s q h. inr h) f.packet
            f.h_source i (c v) (λ r. anything f.packet _) tt h)
          go)
      u
Step-In w {c} (ask v addr r m go) o u =
    with_node-all (λ u n. In o (c u).sent → In o n.sent) c v m (λ u h. h)
      (λ h.
        handle_request-sent (w.platform v) (λ _. Unit) Anyone (In o) (λ x s q h. inr h) addr r (c v)
          tt tt h m (on_datagram-handled (w.platform v) addr r (c v) m go))
      u

-- A route after a frame is one from before, or goes by the frame's sender.
abbrev OldOrVia : Rtbl → List ℕ → ℤ → Rtbl → Type 0
OldOrVia t hw i u = (j : ℤ) (e : Entry) → route j u ≡ some e → (route j t ≡ some e) ⊎ Via hw i e

update-OldOrVia :
    (p : Platform) (last : AddsLast p) (k : OdrPack) (hw : List ℕ) (i : ℤ) (t : Rtbl)
    → OldOrVia t hw i (update_rtbl_entry p k hw i t)
update-OldOrVia p last k hw i t j e h = elim (update-sender p last k hw i t j) [
  | inl same ↦ inl (sym same ∙ h)
  | inr (f, g, via) ↦
      let q : some f ≡ some e = sym g ∙ h in inr (ground (arith, via), ground (arith, via))
]

on_frame-OldOrVia :
    (p : Platform) (last : AddsLast p) (f : FrameIn) (n m : Node)
    → on_frame p (some f) n ≡ running m
    → OldOrVia n.rtbl f.h_source f.sll_ifindex m.rtbl
on_frame-OldOrVia p last f n m go =
    on_frame-Ensures p (λ u. OldOrVia n.rtbl f.h_source f.sll_ifindex u.rtbl) f n m
      (process_pack-table p (λ u x. OldOrVia n.rtbl f.h_source f.sll_ifindex u) f.packet f.h_source
        f.sll_ifindex n (update-OldOrVia p last f.packet f.h_source f.sll_ifindex n.rtbl)
        (λ j e h. inl h))
      go

-- The next hop of every route of every node was heard there.
abbrev pub AllHeard : World → Net → Type 0
AllHeard w c = (v : ℕ) (j : ℤ) (e : Entry) → route j (c v).rtbl ≡ some e → Heard w c v e

module _ (w : World) (last : (v : ℕ) → AddsLast (w.platform v)) where
  still : {c d : Net} → Step w c d → (v : ℕ) (e : Entry) → Heard w c v e → Heard w d v e
  still st v e (s, f, sent, heard, from) = (s, f, Step-In w st (to_link f) s sent, heard, from)

  Step-AllHeard : {c d : Net} → Step w c d → AllHeard w c → AllHeard w d
  Step-AllHeard {c} (hear s v f i m sent heard go) ok =
      let st : Step w c (with_node v m c) = hear s v f i m sent heard go in
      with_node-all
        (λ u n. (j : ℤ) (e : Entry) → route j n.rtbl ≡ some e → Heard w (with_node v m c) u e) c v m
        (λ u j e h. still st u e (ok u j e h))
        (λ j e h. elim (on_frame-OldOrVia (w.platform v) (last v) (received f i) (c v) m go j e h) [
          | inl old ↦ still st v e (ok v j e old)
          | inr via ↦
              still st v e (s, f, sent, subst (λ x. w.hears s f v x) (sym via.1) heard, sym via.0)
        ])
  Step-AllHeard {c} (ask v addr r m go) ok =
      let st : Step w c (with_node v m c) = ask v addr r m go in
      let e : m.rtbl ≡ (c v).rtbl =
        handle_request-table (w.platform v) addr r (c v) m
          (on_datagram-handled (w.platform v) addr r (c v) m go) in
      with_node-all
        (λ u n. (j : ℤ) (e : Entry) → route j n.rtbl ≡ some e → Heard w (with_node v m c) u e) c v m
        (λ u j e h. still st u e (ok u j e h))
        (λ j x h. still st v x (ok v j x (ap (route j) (sym e) ∙ h)))

  -- However the nodes of a network send and receive, the next hop of each route of each node is
  -- the source address of a frame that some node sent and that was heard through the route's
  -- interface, in every state that is reached from one where this holds, where list_add adds last
  -- at every node.
  pub Reach-AllHeard : {c d : Net} → Reach w c d → AllHeard w c → AllHeard w d
  Reach-AllHeard here ok = ok
  Reach-AllHeard (next r st) ok = Step-AllHeard st (Reach-AllHeard r ok)
