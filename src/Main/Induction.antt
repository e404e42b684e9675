-- ===== src/Main/Induction.antt =====
-- What every packet and every request keeps, the rounds of the loop keep.
use odr.Prelude.{
  ℕ, ◌≡◌, List, [], ◌∷◌, Option, none, some, All, Bool-cases, Option-cases, if◌then◌else◌, inl, inr,
}
use odr.Prelude.Int.{◌==ℤ◌}
use odr.Structs.{OdrReq, minus_one}
use odr.Platform.{Platform}
use odr.Link.Sent.{Anyone}
use odr.Node.{Node}
use odr.Odr.Common.{Outcome}
use odr.Odr.Cases.{Ensures}
use odr.Odr.{process_pack}
use odr.Main.{
  FrameIn, Datagram, request, recv_error, Progress, Round, running, failed, fault, handle_request,
  on_frame, on_datagram, round, loop,
}

-- What holds of the state in which the loop goes on.
abbrev pub Leaves : (Node → Type 0) → Progress → Type 0
Leaves P (running n) = P n
Leaves P (failed n) = Unit
Leaves P fault = Unit

-- A condition on the frame of a round, if there is one.
abbrev pub Fits : (FrameIn → Type 0) → Round → Type 0
Fits Q r = elim r.frame [ none ↦ Unit | some f ↦ Q f ]

pub Fits-All : (rs : List Round) → All (Fits (λ f. Unit)) rs
Fits-All [] = tt
Fits-All (r ∷ rs) = (any r.frame, Fits-All rs)
  where
    any : (f : Option FrameIn) → elim f as (λ x. Type 0) [ none ↦ Unit | some f ↦ Unit ]
    any none = tt
    any (some f) = tt

-- A condition on the address that a request comes from, if there is one.
abbrev pub From : (List ℕ → Type 0) → Option Datagram → Type 0
From R none = Unit
From R (some recv_error) = Unit
From R (some (request addr r)) = R addr

abbrev pub AsksFrom : (List ℕ → Type 0) → Round → Type 0
AsksFrom R r = From R r.datagram

pub From-Anyone : (d : Option Datagram) → From Anyone d
From-Anyone none = tt
From-Anyone (some recv_error) = tt
From-Anyone (some (request addr r)) = tt

pub AsksFrom-All : (rs : List Round) → All (AsksFrom Anyone) rs
AsksFrom-All [] = tt
AsksFrom-All (r ∷ rs) = (From-Anyone r.datagram, AsksFrom-All rs)

-- A packet's outcome in the loop.
pub Ensures-Leaves :
    (P : Node → Type 0) (o : Outcome)
    → Ensures P o
    → Leaves P (elim o [
      | none ↦ fault
      | some (ret, m) ↦ if ret ==ℤ minus_one then failed m else running m
    ])
Ensures-Leaves P none v = tt
Ensures-Leaves P (some (ret, m)) v = elim (Bool-cases (ret ==ℤ minus_one)) [
  | inl bad ↦ rw bad tt
  | inr good ↦ rw good v
]

-- The datagram after the frame.
pub then-Leaves :
    (p : Platform) (P : Node → Type 0) (d : Option Datagram)
    → ((m : Node) → P m → Leaves P (on_datagram p d m))
    → (s : Progress) → Leaves P s
    → Leaves P (elim s [ running m ↦ on_datagram p d m | failed m ↦ failed m | fault ↦ fault ])
then-Leaves p P d next (running m) v = next m v
then-Leaves p P d next (failed m) v = tt
then-Leaves p P d next fault v = tt

module _ (p : Platform) (P : Node → Type 0) (R : List ℕ → Type 0)
    (requests : (addr : List ℕ) (r : OdrReq) (n m : Node)
      → R addr
      → handle_request p addr r n ≡ some m
      → P n
      → P m) where
  pub on_datagram-Leaves :
      (d : Option Datagram) (n : Node) → From R d → P n → Leaves P (on_datagram p d n)
  unfolding on_datagram
  on_datagram-Leaves none n s h = h
  on_datagram-Leaves (some recv_error) n s h = tt
  on_datagram-Leaves (some (request addr r)) n s h =
      elim (Option-cases (handle_request p addr r n)) [
        | inl out ↦ rw (out, on_datagram) tt
        | inr (m, e) ↦ rw (e, on_datagram) (requests addr r n m s e h)
      ]

module _ (p : Platform) (P : Node → Type 0) (Q : FrameIn → Type 0) (R : List ℕ → Type 0)
    (packets : (f : FrameIn) (n : Node)
      → Q f
      → P n
      → Ensures P (process_pack p f.packet f.h_source f.sll_ifindex n))
    (requests : (addr : List ℕ) (r : OdrReq) (n m : Node)
      → R addr
      → handle_request p addr r n ≡ some m
      → P n
      → P m) where
  on_frame-Leaves :
      (f : Option FrameIn) (n : Node)
      → (elim f as (λ x. Type 0) [ none ↦ Unit | some f ↦ Q f ])
      → P n
      → Leaves P (on_frame p f n)
  unfolding on_frame
  on_frame-Leaves none n q h = h
  on_frame-Leaves (some f) n q h =
      Ensures-Leaves P (process_pack p f.packet f.h_source f.sll_ifindex n) (packets f n q h)

  round-Leaves : (r : Round) (n : Node) → Fits Q r → AsksFrom R r → P n → Leaves P (round p r n)
  unfolding round
  round-Leaves r n q s h =
      then-Leaves p P r.datagram (λ m v. on_datagram-Leaves p P R requests r.datagram m s v)
        (on_frame p r.frame n) (on_frame-Leaves r.frame n q h)

  pub loop-Leaves :
      (rs : List Round) (n : Node)
      → All (Fits Q) rs
      → All (AsksFrom R) rs
      → P n
      → Leaves P (loop p rs n)
  unfolding loop
  loop-Leaves [] n q s h = h
  loop-Leaves (r ∷ rs) n q s h =
      next (λ m v. loop-Leaves rs m q.1 s.1 v) (round p r n) (round-Leaves r n q.0 s.0 h)
    where
      next :
          ((m : Node) → P m → Leaves P (loop p rs m))
          → (s : Progress) → Leaves P s
          → Leaves P (elim s [ running m ↦ loop p rs m | failed m ↦ failed m | fault ↦ fault ])
      next rest (running m) v = rest m v
      next rest (failed m) v = tt
      next rest fault v = tt
