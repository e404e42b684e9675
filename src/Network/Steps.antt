-- ===== src/Network/Steps.antt =====
-- What holds of every node, and is kept by the two handlers, holds in every state that is reached.
use odr.Prelude.{
  ℕ, ◌≡◌, ◌≢◌, refl, subst, Bool-cases, Option-cases, List, none, some, arith, inl, inr,
  if◌then◌else◌, ◌==◌,
}
use odr.Prelude.Int.{◌==ℤ◌}
use odr.Structs.{OdrReq, minus_one}
use odr.Platform.{Platform}
use odr.Node.{Node}
use odr.Odr.Common.{Outcome}
use odr.Odr.Cases.{Ensures}
use odr.Odr.{process_pack}
use odr.Main.{FrameIn, request, running, failed, fault, on_frame, on_datagram, handle_request}
use odr.Network.{Net, with_node}

-- A frame after which the process goes on was handled by `process_pack`.
pub on_frame-Ensures :
    (p : Platform) (P : Node → Type 0) (f : FrameIn) (n m : Node)
    → Ensures P (process_pack p f.packet f.h_source f.sll_ifindex n)
    → on_frame p (some f) n ≡ running m
    → P m
unfolding on_frame
on_frame-Ensures p P f n m h e = go (process_pack p f.packet f.h_source f.sll_ifindex n) h e
  where
    go :
        (o : Outcome)
        → Ensures P o
        → (elim o [
          | none ↦ fault
          | some (ret, u) ↦ if ret ==ℤ minus_one then failed u else running u
        ])
          ≡ running m
        → P m
    go none h e = cc
    go (some (ret, u)) h e = let same : u ≡ m = ground arith in subst P same h

pub on_datagram-handled :
    (p : Platform) (addr : List ℕ) (r : OdrReq) (n m : Node)
    → on_datagram p (some (request addr r)) n ≡ running m
    → handle_request p addr r n ≡ some m
unfolding on_datagram
on_datagram-handled p addr r n m h = elim (Option-cases (handle_request p addr r n)) [
  | inl out ↦ absurd (ground arith)
  | inr (u, e) ↦ ground arith
]

pub with_node_self : (c : Net) (v : ℕ) (m : Node) → with_node v m c v ≡ m
with_node_self c v m = elim (Bool-cases (v == v)) [
  | inl same ↦ rw same refl
  | inr other ↦ absurd (ground arith)
]

pub with_node_other : (c : Net) (v u : ℕ) (m : Node) → u ≢ v → with_node v m c u ≡ c u
with_node_other c v u m ne = elim (Bool-cases (v == u)) [
  | inl same ↦ absurd (ground arith)
  | inr other ↦ rw other refl
]

-- The node that a step changes, and the others.
pub with_node-all :
    (P : ℕ → Node → Type 0) (c : Net) (v : ℕ) (m : Node)
    → ((u : ℕ) → P u (c u))
    → P v m
    → (u : ℕ) → P u (with_node v m c u)
with_node-all P c v m h g u = elim (Bool-cases (v == u)) [
  | inl same ↦ let e : v ≡ u = ground arith in rw (same) (subst (λ x. P x m) e g)
  | inr other ↦ rw other (h u)
]
