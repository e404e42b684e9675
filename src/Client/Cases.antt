-- ===== src/Client/Cases.antt =====
-- The ways through the two attempts of a round.
use odr.Prelude.{◌≡◌, ◌≢◌, true, false, ◌&&◌, List, [], ◌∷◌, arith, Bool-cases, inl, inr}
use odr.Prelude.Int.{ℤ, pos, ◌==ℤ◌, ◌≤ℤ◌, leb_ℤ, ==ℤ_iff, ==ℤ_ne}
use odr.Structs.{minus_one}
use odr.Client.{Attempt, End, replied, send_failed, timed_out, shown, talk}

module _ {ℓ} (P : End × List ℤ → Type ℓ) (a b : Attempt) where
  -- The five ways through a round.
  pub talk-cases :
      (a.send ≡ minus_one → P (send_failed, pos 0 ∷ []))
      → (a.send ≢ minus_one
          → a.ready ≡ true
          → pos 0 ≤ℤ a.recv
          → P (replied (shown a.reply), pos 0 ∷ []))
      → ((a.ready && leb_ℤ (pos 0) a.recv) ≡ false
          → b.send ≡ minus_one
          → P (send_failed, pos 0 ∷ pos 1 ∷ []))
      → (a.send ≢ minus_one
          → b.send ≢ minus_one
          → b.ready ≡ true
          → P (replied (shown b.reply), pos 0 ∷ pos 1 ∷ []))
      → ((a.ready && leb_ℤ (pos 0) a.recv) ≡ false
          → b.ready ≡ false
          → P (timed_out, pos 0 ∷ pos 1 ∷ []))
      → P (talk a b)
  unfolding talk
  talk-cases f1 f2 f3 f4 f5 = elim (Bool-cases (a.send ==ℤ minus_one)) [
    | inl fail ↦ rw fail (f1 ((==ℤ_iff a.send minus_one).0 fail))
    | inr sent ↦
        let ne = ==ℤ_ne a.send minus_one sent in
        rw sent (elim (Bool-cases (a.ready && leb_ℤ (pos 0) a.recv)) [
          | inl got ↦ rw got (f2 ne (ground arith) (ground arith))
          | inr late ↦ rw late (elim (Bool-cases (b.send ==ℤ minus_one)) [
            | inl fail ↦ rw fail (f3 late ((==ℤ_iff b.send minus_one).0 fail))
            | inr again ↦ rw again (elim (Bool-cases b.ready) [
              | inl ready ↦ rw ready (f4 ne (==ℤ_ne b.send minus_one again) ready)
              | inr out ↦ rw out (f5 late out)
            ])
          ])
        ])
  ]
