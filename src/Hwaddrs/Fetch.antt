-- ===== src/Hwaddrs/Fetch.antt =====
-- What a heap holds after one more block.
use odr.Prelude.{ℕ, ◌≡◌, Bool-cases, inl, inr, false, ◌∷◌, some, none, arith, ◌==◌}
use odr.Hwaddrs.Heap.{Heap, Block, fetch}

pub fetch-here : (a : ℕ) (x : Block) (h : Heap) → fetch a ((a, x) ∷ h) ≡ some x
unfolding fetch
fetch-here a x h = ground arith

pub fetch-past :
    (b c : ℕ) (x : Block) (h : Heap) → (b == c) ≡ false → fetch b ((c, x) ∷ h) ≡ fetch b h
unfolding fetch
fetch-past b c x h e = ground arith

pub fetch-unused :
    (b c : ℕ) (x : Block) (h : Heap)
    → fetch b ((c, x) ∷ h) ≡ none
    → ((b == c) ≡ false) × (fetch b h ≡ none)
unfolding fetch
fetch-unused b c x h e = elim (Bool-cases (b == c)) [
  | inl same ↦ absurd (ground arith)
  | inr other ↦ (other, ground arith)
]

pub fetch-apart :
    (b c : ℕ) (x : Block) (h : Heap) → fetch b h ≡ some x → fetch c h ≡ none → (b == c) ≡ false
fetch-apart b c x h e f = elim (Bool-cases (b == c)) [
  | inl same ↦ absurd (let s : b ≡ c = ground arith in cc)
  | inr other ↦ other
]

-- A heap after one round of the loop: the last entry `c` linked, the new entry `a` and its address `t`.
module _ (h : Heap) (c a t : ℕ) (last first entry address : Block) where
  abbrev pub after_round : Heap
  after_round = (a, entry) ∷ (t, address) ∷ (c, last) ∷ (a, first) ∷ h

  pub round-apart :
      fetch t ((c, last) ∷ (a, first) ∷ h) ≡ none
      → ((t == c) ≡ false) × ((t == a) ≡ false) × (fetch t h ≡ none)
  round-apart e =
      let (tc, f) = fetch-unused t c last ((a, first) ∷ h) e in
      let (ta, g) = fetch-unused t a first h f in (tc, ta, g)

  pub round-entry : fetch a after_round ≡ some entry
  unfolding fetch
  round-entry = ground arith

  pub round-address : (t == a) ≡ false → fetch t after_round ≡ some address
  unfolding fetch
  round-address e = ground arith

  pub round-last : (c == a) ≡ false → (t == c) ≡ false → fetch c after_round ≡ some last
  unfolding fetch
  round-last e f = ground arith

  pub round-others :
      (b : ℕ)
      → (b == a) ≡ false
      → (b == t) ≡ false
      → (b == c) ≡ false
      → fetch b after_round ≡ fetch b h
  unfolding fetch
  round-others b e f g = ground arith

  pub round-unused : (b : ℕ) → fetch b after_round ≡ none → fetch b h ≡ none
  round-unused b e =
      (fetch-unused b a first h
        (fetch-unused b c last _ (fetch-unused b t address _ (fetch-unused b a entry _ e).1).1).1).1
