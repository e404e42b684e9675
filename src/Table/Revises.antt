-- ===== src/Table/Revises.antt =====
-- One offer to the list of rtbl.h is one offer to the map.
use mathlib.Core.Path.{fun_ext}
use odr.Prelude.{
  ℕ, ◌≡◌, refl, ◌∙◌, Bool, true, false, List, [], ◌∷◌, Option, none, some, arith, if◌then◌else◌,
  Bool-cases, Option-cases, inl, inr,
}
use odr.Prelude.Int.{ℤ, ◌-ℤ◌, ◌==ℤ◌, ltb_ℤ, eq_of_parts, ==ℤ_refl, ==ℤ_iff}
use odr.Structs.{Entry}
use odr.Platform.{Platform, AddsLast}
use odr.Table.{
  Rtbl, Offer, first_with, entry_exists_for_src, visit, walk, refresh, add_new_entry, learn,
  replace_stale, take_better,
}
use odr.Table.Walk.{exists-first, first-append, updated, updated_other, visit_miss}
use odr.Table.Keys.{Distinct}
use odr.Table.Routes.{route, route-refresh, first-key}
use odr.Table.Map.{Map, view, put, entry_of, revise, refreshed, learned}

module _ (p : Platform) (o : Offer) (sp : ℤ) where
  walk-miss :
      (n : ℕ) (es : List Entry)
      → entry_exists_for_src o.key es ≡ false
      → walk p o sp n es ≡ record { stopped = false; reads = n; entries = es }
  unfolding walk entry_exists_for_src
  walk-miss n [] h = refl
  walk-miss n (e ∷ es) h = ground (arith, visit_miss p o sp n e, walk-miss n es)

  -- With one entry for each node, the walk ends as the visit of the offer's entry does.
  walk-first :
      (n : ℕ) (es : List Entry) (e : Entry)
      → Distinct es
      → first_with o.key es ≡ some e
      → ((walk p o sp n es).stopped ≡ (visit p o sp n e).0)
        × ((walk p o sp n es).reads ≡ (visit p o sp n e).1)
  unfolding walk first_with
  walk-first n [] e d h = absurd (ground arith)
  walk-first n (x ∷ es) e d h = elim (Bool-cases (x.key ==ℤ o.key)) [
    | inl hit ↦
        let same : x.key ≡ o.key = (==ℤ_iff x.key o.key).0 hit in
        ground (arith, walk-miss (visit p o sp n x).1 es)
    | inr miss ↦ ground (arith, visit_miss p o sp n x miss, walk-first n es e d.1)
  ]

pair-ext :
    {a b : Bool} {f g : ℤ → Option Entry} {r s : ℕ} (sp : ℤ)
    → a ≡ b
    → f ≡ g
    → r ≡ s
    → ◌≡◌ {A = Bool × Map}
        (a, record { find = f; sp = sp; reads = r })
        (b, record { find = g; sp = sp; reads = s })
pair-ext sp x y z = λ i. (x i, record { find = y i; sp = sp; reads = z i })

updated-put :
    (p : Platform) (o : Offer) (sp : ℤ) (n : ℕ) (j : ℤ) (x : Option Entry) (e : Entry)
    → ((j ==ℤ o.key) ≡ true → x ≡ some e)
    → updated p o sp j n x ≡ (if j ==ℤ o.key then some (visit p o sp n e).2 else x)
updated-put p o sp n j x e h = elim (Bool-cases (j ==ℤ o.key)) [
  | inl same ↦ rw (same, h same) (rw same)
  | inr other ↦ rw other (updated_other p o sp j n x other)
]

module _ (p : Platform) (last : AddsLast p) (o : Offer) (t : Rtbl) where
  found : (j : ℤ) (e : Entry) → (j ==ℤ o.key) ≡ true → route o.key t ≡ some e → route j t ≡ some e
  found j e h r = rw ((==ℤ_iff j o.key).0 h) r

  -- The visit of the offer's entry, on the map.
  abbrev visited : Entry → Bool × Map
  visited e =
      let v = visit p o t.sp t.reads e in
      (v.0, record (view t) { find = put o.key v.2 (view t).find; reads = v.1 })

  view-refresh :
      (e : Entry)
      → Distinct t.entries
      → route o.key t ≡ some e
      → ◌≡◌ {A = Bool × Map} ((refresh p o t).0, view (refresh p o t).1) (visited e)
  unfolding refresh
  view-refresh e d r =
      let w = walk-first p o t.sp t.reads t.entries e d r in pair-ext t.sp w.0 (fun_ext at_key) w.1
    where
      at_key :
          (j : ℤ)
          → first_with j (walk p o t.sp t.reads t.entries).entries
            ≡ put o.key (visit p o t.sp t.reads e).2 (λ j. route j t) j
      at_key j =
          route-refresh p last j o t
          ∙ updated-put p o t.sp t.reads j (route j t) e (λ h. found j e h r)

  -- The visit is the revision, on each of its branches.
  visited-revise : (e : Entry) → route o.key t ≡ some e → visited e ≡ revise p o e (view t)
  unfolding visit replace_stale take_better revise
  visited-revise e r =
      let own : (e.key ==ℤ o.key) ≡ true = first-key o.key e t.entries r in
      elim (Bool-cases (ltb_ℤ t.sp (p.clock t.reads -ℤ e.ts))) [
        | inl stale ↦ rw (own, stale) refl
        | inr young ↦ elim (Bool-cases (ltb_ℤ o.hop e.hop)) [
          | inl better ↦ rw (own, young, better) refl
          | inr worse ↦ rw (own, young, worse) (pair-ext t.sp refl (fun_ext kept) refl)
        ]
      ]
    where
      kept : (j : ℤ) → put o.key e (λ j. route j t) j ≡ route j t
      kept j = elim (Bool-cases (j ==ℤ o.key)) [
        | inl same ↦ rw (same, found j e same r)
        | inr other ↦ rw other
      ]

  -- A refresh on the list is one on the map.
  pub refresh-refines :
      Distinct t.entries
      → ◌≡◌ {A = Bool × Map} ((refresh p o t).0, view (refresh p o t).1) (refreshed p o (view t))
  unfolding refreshed
  refresh-refines d = elim (Option-cases (route o.key t)) [
    | inl gone ↦
        unfold refresh in
        rw
          (
            walk-miss p o t.sp t.reads t.entries (exists-first o.key t.entries ∙ rw gone),
            gone,
            refreshed,
          )
          refl
    | inr (e, r) ↦ rw (r, refreshed) (view-refresh e d r ∙ visited-revise e r)
  ]

  pub learn-refines :
      Distinct t.entries
      → ◌≡◌ {A = Bool × Map} ((learn p o t).0, view (learn p o t).1) (learned p o (view t))
  unfolding learn learned
  learn-refines d = elim (Option-cases (route o.key t)) [
    | inl gone ↦
        unfold add_new_entry in
        rw (exists-first, gone, learn, learned) (pair-ext t.sp refl (fun_ext (added gone)) refl)
    | inr (e, r) ↦ rw (exists-first, r, learn, learned) (view-refresh e d r ∙ visited-revise e r)
  ]
    where
      added :
          route o.key t ≡ none
          → (j : ℤ)
          → first_with j (add_new_entry p o t).entries
            ≡ put o.key (entry_of o p.heap_bytes o.hop (p.clock t.reads)) (λ j. route j t) j
      added gone j =
          unfold add_new_entry in
          rw (last.rtbl_last, first-append)
            (ground (arith, exists-first j t.entries, eq_of_parts j o.key, ==ℤ_refl j))
