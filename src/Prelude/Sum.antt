-- ===== src/Prelude/Sum.antt =====
-- Sums over the first numbers.
use odr.Prelude.{
  ℕ, zero, suc, ◌+◌, ◌≤◌, ◌<◌, ◌≡◌, ◌≢◌, ◌⊎◌, ◌==◌, refl, sym, subst, arith, Bool-cases, inl, inr,
}

abbrev pub sum : (ℕ → ℕ) → ℕ → ℕ
sum f zero = 0
sum f (suc n) = f n + sum f n

pub sum-le : (f : ℕ → ℕ) → ((x : ℕ) → f x ≤ 1) → (n : ℕ) → sum f n ≤ n
sum-le f h zero = omega arith
sum-le f h (suc n) = omega (arith, h n, sum-le f h n)

module _ (f g : ℕ → ℕ) (v : ℕ) (others : (x : ℕ) → x ≢ v → g x ≡ f x) where
  sum-same : (n : ℕ) → n ≤ v → sum g n ≡ sum f n
  sum-same zero h = refl
  sum-same (suc n) h = omega (arith, others n (λ e. absurd (omega arith)), sum-same n (omega arith))

  -- One summand falls by `d`, unless that is 0, and the others stay.
  pub sum-fall : (d n : ℕ) → g v + d ≤ f v → (v < n) ⊎ (d ≡ 0) → sum g n + d ≤ sum f n
  sum-fall d zero h (inl b) = elim b [ ]
  sum-fall d zero h (inr e) = omega arith
  sum-fall d (suc n) h i = elim (Bool-cases (n == v)) [
    | inl last ↦
        let e : n ≡ v = ground arith in
        let fall : g n + d ≤ f n = subst (λ x. g x + d ≤ f x) (sym e) h in
        omega (arith, sum-same n (omega arith))
    | inr other ↦
        let e : n ≢ v = (λ q. absurd (ground arith)) in
        omega (
          arith,
          others n e,
          sum-fall d n h (elim i [ inl b ↦ inl (ground arith) | inr z ↦ inr z ]),
        )
  ]
