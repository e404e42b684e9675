-- ===== src/CString/Laws.antt =====
-- What the functions on `char` arrays say of the texts that the arrays hold.
use odr.Prelude.{
  ℕ, zero, suc, ◌≤◌, ◌<◌, ◌≡◌, refl, ap, true, List, [], ◌∷◌, arith, take, length, ◌==◌,
  if◌then◌else◌,
}
use odr.CString.{strncpy, strncmp_eq, c_string, memcpy}

-- A comparison of `n` bytes compares the first `n` bytes of the texts.
pub strncmp_eq_sound :
    (a b : List ℕ) (n : ℕ) → strncmp_eq a b n ≡ true → take n (c_string a) ≡ take n (c_string b)
unfolding strncmp_eq c_string
strncmp_eq_sound a b zero h = refl
strncmp_eq_sound [] [] (suc n) h = refl
strncmp_eq_sound [] (d ∷ ds) (suc n) h = ground arith
strncmp_eq_sound (c ∷ cs) [] (suc n) h = ground arith
strncmp_eq_sound (c ∷ cs) (d ∷ ds) (suc n) h = ground (arith, strncmp_eq_sound cs ds n)

pub strncmp_eq_complete :
    (a b : List ℕ) (n : ℕ) → take n (c_string a) ≡ take n (c_string b) → strncmp_eq a b n ≡ true
unfolding strncmp_eq c_string
strncmp_eq_complete a b zero h = refl
strncmp_eq_complete [] [] (suc n) h = refl
strncmp_eq_complete [] (d ∷ ds) (suc n) h = ground arith
strncmp_eq_complete (c ∷ cs) [] (suc n) h = ground arith
strncmp_eq_complete (c ∷ cs) (d ∷ ds) (suc n) h = ground (arith, strncmp_eq_complete cs ds n)

-- A text that is shorter than the bound and the array arrives whole.
pub strncpy-text :
    (to from : List ℕ) (n : ℕ)
    → length (c_string from) < n
    → n ≤ length to
    → c_string (strncpy to from n) ≡ c_string from
unfolding strncpy c_string
strncpy-text to from zero h g = elim h [ ]
strncpy-text [] from (suc n) h g = absurd (omega arith)
strncpy-text (t ∷ ts) [] (suc n) h g = ground arith
strncpy-text (t ∷ ts) (c ∷ cs) (suc n) h g = ground (arith, strncpy-text ts cs n)

pub length-memcpy : (to from : List ℕ) → length (memcpy to from) ≡ length to
unfolding memcpy
length-memcpy to [] = refl
length-memcpy [] (c ∷ cs) = refl
length-memcpy (t ∷ ts) (c ∷ cs) = ap suc (length-memcpy ts cs)

pub length-strncpy : (to from : List ℕ) (n : ℕ) → length (strncpy to from n) ≡ length to
unfolding strncpy
length-strncpy to from zero = refl
length-strncpy [] from (suc n) = refl
length-strncpy (t ∷ ts) [] (suc n) = ap suc (length-strncpy ts [] n)
length-strncpy (t ∷ ts) (c ∷ cs) (suc n) = ap suc (length-strncpy ts (if c == 0 then [] else cs) n)
