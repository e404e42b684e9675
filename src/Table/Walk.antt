-- ===== src/Table/Walk.antt =====
-- The walk over the routing table, read as an update of the first entry with the offer's key.
use odr.Prelude.{
  ℕ, ◌≡◌, refl, Bool, true, false, List, [], ◌∷◌, ◌++◌, Option, none, some, arith, if◌then◌else◌,
  All, Bool-cases, inl, inr,
}
use odr.Prelude.Int.{ℤ, ◌==ℤ◌, eq_of_parts}
use odr.Structs.{Entry}
use odr.Platform.{Platform}
use odr.Table.{Offer, first_with, entry_exists_for_src, visit, walk}

abbrev pub is_some : Option Entry → Bool
is_some none = false
is_some (some _) = true

pub exists-first : (k : ℤ) (es : List Entry) → entry_exists_for_src k es ≡ is_some (first_with k es)
unfolding entry_exists_for_src first_with
exists-first k [] = refl
exists-first k (e ∷ es) = ground (arith, exists-first k es)

pub exists-append :
    (k : ℤ) (es : List Entry) (e : Entry)
    → entry_exists_for_src k (es ++ e ∷ [])
      ≡ (if entry_exists_for_src k es then true else e.key ==ℤ k)
unfolding entry_exists_for_src
exists-append k [] e = ground arith
exists-append k (x ∷ es) e = ground (arith, exists-append k es e)

pub first-append :
    (k : ℤ) (es : List Entry) (e : Entry)
    → first_with k (es ++ e ∷ []) ≡ (
        if entry_exists_for_src k es then first_with k es else if e.key ==ℤ k then some e else none)
unfolding entry_exists_for_src first_with
first-append k [] e = ground arith
first-append k (x ∷ es) e = ground (arith, first-append k es e)

module _ (p : Platform) (o : Offer) (sp : ℤ) where
  pub visit-key : (n : ℕ) (e : Entry) → (visit p o sp n e).2.key ≡ e.key
  unfolding visit
  visit-key n e = ground (arith, eq_of_parts e.key o.key)

  pub exists-walk :
      (k : ℤ) (n : ℕ) (es : List Entry)
      → entry_exists_for_src k (walk p o sp n es).entries ≡ entry_exists_for_src k es
  unfolding walk entry_exists_for_src
  exists-walk k n [] = refl
  exists-walk k n (e ∷ es) = ground (arith, visit-key n e, exists-walk k (visit p o sp n e).1 es)

  -- What the walk does to the entry that it finds first under a key.
  abbrev pub updated : ℤ → ℕ → Option Entry → Option Entry
  updated k n none = none
  updated k n (some e) = some (if k ==ℤ o.key then (visit p o sp n e).2 else e)

  pub visit_miss :
      (n : ℕ) (e : Entry) → (e.key ==ℤ o.key) ≡ false → visit p o sp n e ≡ (false, n, e)
  unfolding visit
  visit_miss n e h = ground arith

  pub updated_other : (k : ℤ) (n : ℕ) (x : Option Entry) → (k ==ℤ o.key) ≡ false → updated k n x ≡ x
  updated_other k n none h = refl
  updated_other k n (some e) h = ground arith

  pub first-walk :
      (k : ℤ) (n : ℕ) (es : List Entry)
      → first_with k (walk p o sp n es).entries ≡ updated k n (first_with k es)
  unfolding walk first_with
  first-walk k n [] = refl
  first-walk k n (e ∷ es) = elim (Bool-cases (e.key ==ℤ o.key)) [
    | inl hit ↦ ground (
      arith,
      visit-key n e,
      first-walk k (visit p o sp n e).1 es,
      updated_other k n (first_with k es),
      updated_other k (visit p o sp n e).1 (first_with k es),
    )
    | inr miss ↦ ground (arith, visit_miss n e miss, first-walk k n es)
  ]

  -- What holds of all entries, and is kept by a visit, holds after the walk.
  pub All-walk {κ} :
      (P : Entry → Type κ)
      → ((m : ℕ) (e : Entry) → P e → P (visit p o sp m e).2)
      → (n : ℕ) (es : List Entry) → All P es
      → All P (walk p o sp n es).entries
  unfolding walk
  All-walk P keep n [] h = tt
  All-walk P keep n (e ∷ es) h = elim (Bool-cases (visit p o sp n e).0) [
    | inl stop ↦ rw (stop, walk) (keep n e h.0, h.1)
    | inr go ↦ rw (go, walk) (keep n e h.0, All-walk P keep (visit p o sp n e).1 es h.1)
  ]
