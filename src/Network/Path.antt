-- ===== src/Network/Path.antt =====
-- A packet along a path of nodes: a run of the network, for any packet that each node sends on.
use odr.Prelude.{ℕ, ◌≡◌, ◌≢◌, ◌⊎◌, ◌∙◌, ap, refl, sym, subst, List, [], ◌∷◌, some, All, inl, inr}
use odr.Prelude.Int.{ℤ, pos, ◌+ℤ◌}
use odr.Structs.{OdrPack, Entry, Frame, Out, to_link}
use odr.Platform.{Platform}
use odr.Table.{get_index_from_ip}
use odr.Table.Routes.{route}
use odr.Table.Senders.{Via}
use odr.Link.Frames.{push_all}
use odr.Node.{Node}
use odr.Main.{running, on_frame}
use odr.Network.{World, Net, In, with_node, received, hear, Reach, here, next}
use odr.Network.Steps.{with_node_self, with_node_other}

-- A node on the path, with the frame that it hears and the interface that it hears it by.
pub record Stop : Type 0 where
  pub node : ℕ
  pub frame : Frame
  pub ifindex : ℤ

In-push_all : (o : Out) (os s : List Out) → (In o os) ⊎ (In o s) → In o (push_all os s)
In-push_all o [] s (inl i) = elim i [ ]
In-push_all o [] s (inr i) = i
In-push_all o (x ∷ os) s (inl (inl e)) = In-push_all o os (x ∷ s) (inr (inl e))
In-push_all o (x ∷ os) s (inl (inr i)) = In-push_all o os (x ∷ s) (inl i)
In-push_all o (x ∷ os) s (inr i) = In-push_all o os (x ∷ s) (inr (inr i))

Reach-append : {w : World} {c d e : Net} → Reach w c d → Reach w d e → Reach w c e
Reach-append r here = r
Reach-append r (next q st) = next (Reach-append r q) st

-- No node comes twice.
abbrev pub Apart : List Stop → Type 0
Apart [] = Unit
Apart (l ∷ ls) = All (λ x. x.node ≢ l.node) ls × Apart ls

-- A node has a route of the given length by the neighbour that it heard the frame from.
abbrev pub Learned : Platform → List ℕ → ℤ → Stop → Node → Type 0
Learned p ip h l m =
    (e : Entry) × (route (get_index_from_ip p ip) m.rtbl ≡ some e)
    × Via l.frame.h_source l.ifindex e
    × (e.hop ≡ h)

module _ (w : World) where
  -- The first frame is among the messages, and the node on the path hears it.
  abbrev pub Arrives : List Out → ℕ → List Stop → Type 0
  Arrives s u [] = Unit
  Arrives s u (l ∷ ls) = In (to_link l.frame) s × w.hears u l.frame l.node l.ifindex

  -- Each node on the path has such a route; the length grows by one from node to node.
  abbrev pub Reached : Net → List ℕ → ℤ → List Stop → Type 0
  Reached d ip h [] = Unit
  Reached d ip h (l ∷ ls) =
      Learned (w.platform l.node) ip h l (d l.node) × Reached d ip (h +ℤ pos 1) ls

  Arrives-push :
      (os s : List Out) (u : ℕ) (ls : List Stop) → Arrives os u ls → Arrives (push_all os s) u ls
  Arrives-push os s u [] h = tt
  Arrives-push os s u (l ∷ ls) (i, h) = (In-push_all (to_link l.frame) os s (inl i), h)

  -- What a node makes of a packet that it sends on, which state it must have, and what it sends.
  module _ (step : OdrPack → OdrPack) (Ok : OdrPack → Stop → Node → Type 0)
      (out : OdrPack → Stop → Node → List Out) where
    -- Each node is fit to send the packet on, and the next one hears a frame that it sends.
    abbrev pub Chain : Net → OdrPack → List Stop → Type 0
    Chain c k [] = Unit
    Chain c k (l ∷ ls) =
        (l.frame.packet ≡ k)
        × Ok k l (c l.node)
        × Arrives (out k l (c l.node)) l.node ls
        × Chain c (step k) ls

    -- The packet is about a route to a fixed node, and counts its hops.
    pub record Flow (ip : OdrPack → List ℕ) (hop : OdrPack → ℤ) : Type 0 where
      pub same_ip : (k : OdrPack) → ip (step k) ≡ ip k
      pub counts : (k : OdrPack) → hop (step k) ≡ hop k +ℤ pos 1
      pub runs :
          (k : OdrPack) (l : Stop) (n : Node)
          → l.frame.packet ≡ k
          → Ok k l n
          → (m : Node) × (on_frame (w.platform l.node) (some (received l.frame l.ifindex)) n
              ≡ running m)
            × (m.sent ≡ push_all (out k l n) n.sent)
            × Learned (w.platform l.node) (ip k) (hop k) l m

    Chain-with :
        (c : Net) (v : ℕ) (m : Node) (k : OdrPack) (ls : List Stop)
        → All (λ x. x.node ≢ v) ls
        → Chain c k ls
        → Chain (with_node v m c) k ls
    Chain-with c v m k [] a h = tt
    Chain-with c v m k (l ∷ ls) a (e, ready, on, rest) =
        let same = sym (with_node_other c v l.node m a.0) in
        (
          e,
          subst (λ n. Ok k l n) same ready,
          subst (λ n. Arrives (out k l n) l.node ls) same on,
          Chain-with c v m (step k) ls a.1 rest,
        )

    module _ (ip : OdrPack → List ℕ) (hop : OdrPack → ℤ) (flow : Flow ip hop) where
      -- The other nodes keep their states.
      pub along :
          (c : Net) (u : ℕ) (k : OdrPack) (ls : List Stop)
          → Arrives (c u).sent u ls
          → Chain c k ls
          → Apart ls
          → (d : Net) × Reach w c d
            × Reached d (ip k) (hop k) ls
            × ((v : ℕ) → All (λ x. x.node ≢ v) ls → d v ≡ c v)
      along c u k [] a h apart = (c, here, tt, λ v q. refl)
      along c u k (l ∷ ls) (i, hears) (e, ready, on, rest) apart =
          let v = l.node in
          let (m, go, sends, learned) = flow.runs k l (c v) e ready in
          let c' = with_node v m c in
          let at = with_node_self c v m in
          let first : Reach w c c' = next here (hear u v l.frame l.ifindex m i hears go) in
          let sent : Arrives (c' v).sent v ls =
            subst (λ s. Arrives s v ls) (sym (ap (λ n. n.sent) at ∙ sends))
              (Arrives-push (out k l (c v)) (c v).sent v ls on) in
          let (d, run, reached, keeps) =
            along c' v (step k) ls sent (Chain-with c v m (step k) ls apart.0 rest) apart.1 in
          let same : d v ≡ m = keeps v apart.0 ∙ at in
          (
            d,
            Reach-append first run,
            (
              subst (Learned (w.platform v) (ip k) (hop k) l) (sym same) learned,
              subst (λ h. Reached d (ip k) h ls) (flow.counts k)
                  (subst (λ a. Reached d a (hop (step k)) ls) (flow.same_ip k) reached),
            ),
            λ x q. keeps x q.1 ∙ with_node_other c v x m (λ z. q.0 (sym z)),
          )
