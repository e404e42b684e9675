-- ===== src/Hwaddrs/Sizing.antt =====
-- The search for a buffer ends, with the whole list.
use odr.Prelude.{ℕ, zero, suc, ◌+◌, ◌*◌, ◌≤◌, ◌<◌, ◌≡◌, false, ◌==◌, arith, Bool-cases, inl, inr}
use native.Mathlib.Decide.{dec_le}
use odr.Hwaddrs.{Ifconf, filled, sized, sizing}

-- The kernel fills in as many whole records as fit, of a list of `total` bytes.
pub record Kernel (ioctl : ℕ → Ifconf) (ifreq total : ℕ) : Type 0 where
  pub size : 0 < ifreq
  pub fits : (len : ℕ) → total ≤ len → ioctl len ≡ filled total
  pub short :
      (len : ℕ) → len < total → (n : ℕ) × (ioctl len ≡ filled n) × (len < n + ifreq) × (n ≤ len)

module _ (ioctl : ℕ → Ifconf) (ifreq total : ℕ) (k : Kernel ioctl ifreq total) where
  sizing_twice :
      (fuel len : ℕ) → total ≤ len → sizing ioctl ifreq (suc fuel) total len ≡ sized total
  unfolding sizing
  sizing_twice fuel len h = rw (k.fits len h, sizing) (ground arith)

  -- The last length is below the buffer that gave it.
  sizing_finds :
      (fuel lastlen len : ℕ)
      → 2 ≤ fuel
      → total + 2 ≤ len + fuel
      → lastlen + ifreq ≤ len
      → sizing ioctl ifreq fuel lastlen len ≡ sized total
  unfolding sizing
  sizing_finds zero lastlen len two enough below = absurd (omega arith)
  sizing_finds (suc zero) lastlen len two enough below = absurd (omega arith)
  sizing_finds (suc (suc fuel)) lastlen len two enough below = elim (dec_le total len) [
    | yes large ↦
        rw (k.fits len large, sizing)
          (elim (Bool-cases (total == lastlen)) [
            | inl same ↦ rw same
            | inr new ↦ rw new (sizing_twice fuel (len + 10 * ifreq) (omega arith))
          ])
    | no small ↦
        let (n, e, near, within) = k.short len (omega arith) in
        let new : (n == lastlen) ≡ false = ground arith in
        let size : 0 < ifreq = k.size in
        rw (e, sizing)
          (rw new (
            sizing_finds (suc fuel) n (len + 10 * ifreq) (omega arith) (omega arith) (omega arith)))
  ]

  -- The search for a buffer ends with the length of the whole list, with fuel for two more rounds
  -- than the list has bytes, if the kernel fills in as many whole records as fit.
  pub sizing_complete :
      (fuel : ℕ) → total + 2 ≤ fuel → sizing ioctl ifreq fuel 0 (100 * ifreq) ≡ sized total
  sizing_complete fuel h =
      sizing_finds fuel 0 (100 * ifreq) (omega arith) (omega arith) (omega arith)
