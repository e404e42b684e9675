-- ===== src/CString.antt =====
-- The string and memory functions of the C library that the program calls on `char` arrays. An
-- array is the list of its bytes.
pub mod Laws
use odr.Prelude.{ℕ, zero, suc, Bool, true, false, List, [], ◌∷◌, ◌==◌, if◌then◌else◌}

-- The byte at an index. Past the end of the list it is a NUL.
unfoldable pub byte_at : List ℕ → ℕ → ℕ
byte_at [] i = 0
byte_at (c ∷ cs) zero = c
byte_at (c ∷ cs) (suc i) = byte_at cs i

-- strncpy(to, from, n): at most `n` bytes, filled up with NULs behind the end of `from`. The bytes
-- of `to` after the first `n` stay.
unfoldable pub strncpy : List ℕ → List ℕ → ℕ → List ℕ
strncpy to from zero = to
strncpy [] from (suc n) = []
strncpy (t ∷ ts) [] (suc n) = 0 ∷ strncpy ts [] n
strncpy (t ∷ ts) (c ∷ cs) (suc n) = c ∷ strncpy ts (if c == 0 then [] else cs) n

-- strncmp(a, b, n) == 0. The end of a list counts as a NUL.
unfoldable pub strncmp_eq : List ℕ → List ℕ → ℕ → Bool
strncmp_eq a b zero = true
strncmp_eq [] [] (suc n) = true
strncmp_eq [] (d ∷ ds) (suc n) = d == 0
strncmp_eq (c ∷ cs) [] (suc n) = c == 0
strncmp_eq (c ∷ cs) (d ∷ ds) (suc n) =
    let rest = strncmp_eq cs ds n in if c == d then (if c == 0 then true else rest) else false

-- memcpy(to, from, n) where `from` has `n` bytes: they replace the first of `to`.
unfoldable pub memcpy : List ℕ → List ℕ → List ℕ
memcpy to [] = to
memcpy [] (c ∷ cs) = []
memcpy (t ∷ ts) (c ∷ cs) = c ∷ memcpy ts cs

-- The text that an array holds: the bytes before the first NUL.
unfoldable pub c_string : List ℕ → List ℕ
c_string [] = []
c_string (c ∷ cs) = if c == 0 then [] else c ∷ c_string cs

-- The first `n` bytes of an array.
unfoldable pub bytes : ℕ → List ℕ → List ℕ
bytes zero cs = []
bytes (suc n) [] = 0 ∷ bytes n []
bytes (suc n) (c ∷ cs) = c ∷ bytes n cs
