-- ===== src/Print/Rows.antt =====
-- The printed routing table: the routes to the other nodes.
use odr.Prelude.{
  ◌≡◌, ◌≢◌, refl, sym, ◌∙◌, false, List, [], ◌∷◌, Option, none, some, Bool-cases, inl, inr,
  if◌then◌else◌,
}
use odr.Prelude.Int.{ℤ, ◌==ℤ◌, ==ℤ_iff, ==ℤ_ne}
use odr.Structs.{Entry}
use odr.Platform.{Platform}
use odr.Table.{Rtbl, first_with}
use odr.Table.Routes.{route}
use odr.Print.{Row, row_of, rows, self_idx, print_routing_table}

-- The first row with a key.
abbrev pub first_row : ℤ → List Row → Option Row
first_row j [] = none
first_row j (r ∷ rs) = if r.key ==ℤ j then some r else first_row j rs

abbrev pub as_row : Option Entry → Option Row
as_row none = none
as_row (some e) = some (row_of e)

rows-own : (self : ℤ) (es : List Entry) → first_row self (rows self es) ≡ none
unfolding rows row_of
rows-own self [] = refl
rows-own self (e ∷ es) = elim (Bool-cases (e.key ==ℤ self)) [
  | inl hit ↦ rw hit (rows-own self es)
  | inr miss ↦ rw miss (rw miss (rows-own self es))
]

other_key : (j k self : ℤ) → j ≢ self → k ≡ self → (k ==ℤ j) ≡ false
other_key j k self d e = elim (Bool-cases (k ==ℤ j)) [
  | inl hit ↦ absurd (d (sym ((==ℤ_iff k j).0 hit) ∙ e))
  | inr miss ↦ miss
]

rows-other :
    (self j : ℤ) (es : List Entry)
    → j ≢ self
    → first_row j (rows self es) ≡ as_row (first_with j es)
unfolding rows row_of first_with
rows-other self j [] d = refl
rows-other self j (e ∷ es) d = elim (Bool-cases (e.key ==ℤ self)) [
  | inl own ↦
      let miss : (e.key ==ℤ j) ≡ false = other_key j (e.key) self d ((==ℤ_iff e.key self).0 own) in
      rw (own, miss) (rows-other self j es d)
  | inr far ↦ rw far (elim (Bool-cases (e.key ==ℤ j)) [
    | inl hit ↦ rw hit refl
    | inr miss ↦ rw miss (rows-other self j es d)
  ])
]

-- The printed table has a row for the route to each other node, and none for the node itself.
print_routing_table-routes :
    (p : Platform) (t : Rtbl) (j : ℤ)
    → first_row j (print_routing_table p t)
      ≡ (if j ==ℤ self_idx p then none else as_row (route j t))
unfolding print_routing_table
print_routing_table-routes p t j = elim (Bool-cases (j ==ℤ self_idx p)) [
  | inl own ↦ rw own (rw ((==ℤ_iff j (self_idx p)).0 own) (rows-own (self_idx p) t.entries))
  | inr other ↦ rw other (rows-other (self_idx p) j t.entries (==ℤ_ne j (self_idx p) other))
]
