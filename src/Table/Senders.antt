-- ===== src/Table/Senders.antt =====
-- Where the next hop of a route comes from.
use odr.Prelude.{
  ℕ, ◌≡◌, ◌⊎◌, refl, ◌∙◌, sym, false, List, Option, none, some, arith, Bool-cases, Option-cases,
  inl, inr,
}
use odr.Prelude.Int.{ℤ, ◌==ℤ◌, ◌-ℤ◌, ltb_ℤ}
use odr.Structs.{OdrPack, Entry}
use odr.Platform.{Platform, AddsLast}
use odr.Table.{
  Rtbl, Offer, entry_exists_for_src, visit, refresh, add_new_entry, rreq_offer, rrep_offer,
  data_dest_offer, update_rtbl_entry,
}
use odr.Table.Walk.{exists-first, first-append, updated}
use odr.Table.Keeps.{update-keeps}
use odr.Table.Routes.{route, route-refresh}

-- An entry whose next hop is reached at a hardware address through an interface.
abbrev pub Via : List ℕ → ℤ → Entry → Type 0
Via hw i e = (e.next_hop_hwaddr ≡ hw) × (e.if_no ≡ i)

visit-Via :
    (p : Platform) (o : Offer) (sp : ℤ) (n : ℕ) (e : Entry)
    → ((visit p o sp n e).2 ≡ e) ⊎ Via o.hwaddr o.if_no (visit p o sp n e).2
unfolding visit
visit-Via p o sp n e = elim (Bool-cases (e.key ==ℤ o.key)) [
  | inr other ↦ inl (rw other refl)
  | inl same ↦ elim (Bool-cases (ltb_ℤ sp (p.clock n -ℤ e.ts))) [
    | inl stale ↦ inr (rw (same, stale) refl, rw (same, stale) refl)
    | inr young ↦ elim (Bool-cases (ltb_ℤ o.hop e.hop)) [
      | inl better ↦ inr (rw (same, young, better) refl, rw (same, young, better) refl)
      | inr worse ↦ inl (rw (same, young, worse) refl)
    ]
  ]
]

module _ (p : Platform) (last : AddsLast p) (j : ℤ) (hw : List ℕ) (i : ℤ) (x : Option Entry) where
  -- The route to `j` is `x`, or one by the given neighbour.
  abbrev SameOrVia : Option Entry → Type 0
  SameOrVia y = (y ≡ x) ⊎ ((e : Entry) × (y ≡ some e) × Via hw i e)

  abbrev From : Offer → Type 0
  From o = (o.hwaddr ≡ hw) × (o.if_no ≡ i)

  updated-Via :
      (o : Offer) (sp : ℤ) (n : ℕ) (y : Option Entry)
      → From o
      → SameOrVia y
      → SameOrVia (updated p o sp j n y)
  updated-Via o sp n none f h = h
  updated-Via o sp n (some e) f h = elim (Bool-cases (j ==ℤ o.key)) [
    | inr other ↦ rw other h
    | inl same ↦ rw same (elim (visit-Via p o sp n e) [
      | inl kept ↦ rw kept h
      | inr (a, b) ↦ inr ((visit p o sp n e).2, refl, (a ∙ f.0, b ∙ f.1))
    ])
  ]

  refresh-Via :
      (o : Offer) (t : Rtbl)
      → From o
      → SameOrVia (route j t)
      → SameOrVia (route j (refresh p o t).1)
  refresh-Via o t f h = rw (route-refresh p last j o t) (updated-Via o t.sp t.reads (route j t) f h)

  add-Via :
      (o : Offer) (t : Rtbl)
      → entry_exists_for_src o.key t.entries ≡ false
      → From o
      → SameOrVia (route j t)
      → SameOrVia (route j (add_new_entry p o t))
  unfolding add_new_entry
  add-Via o t new f h =
      rw (last.rtbl_last, first-append)
        (elim (Option-cases (route j t)) [
          | inr (e, old) ↦ rw (exists-first, old) (rw (sym old) h)
          | inl gone ↦
              rw (exists-first, gone)
                (elim (Bool-cases (o.key ==ℤ j)) [
                  | inl own ↦ rw own (inr (_, refl, (f.0, f.1)))
                  | inr other ↦ rw other (rw (sym gone) h)
                ])
        ])

module _ (p : Platform) (last : AddsLast p) where
  -- Where list_add adds last, a packet leaves the route to each node as it was, or leaves one
  -- whose next hop is the neighbour and the interface that the packet came by.
  pub update-sender :
      (k : OdrPack) (hw : List ℕ) (i : ℤ) (t : Rtbl) (j : ℤ)
      → (route j (update_rtbl_entry p k hw i t) ≡ route j t)
        ⊎ ((e : Entry) × (route j (update_rtbl_entry p k hw i t) ≡ some e) × Via hw i e)
  unfolding rreq_offer rrep_offer data_dest_offer
  update-sender k hw i t j =
      update-keeps p last (λ u. SameOrVia p last j hw i (route j t) (route j u))
        (From p last j hw i (route j t)) (refresh-Via p last j hw i (route j t))
        (add-Via p last j hw i (route j t)) k hw i t (refl, refl) (refl, refl) (refl, refl)
        (inl refl)

  -- A route that a packet makes goes by the neighbour that brought it.
  pub update-new :
      (k : OdrPack) (hw : List ℕ) (i : ℤ) (t : Rtbl) (j : ℤ) (e : Entry)
      → route j t ≡ none
      → route j (update_rtbl_entry p k hw i t) ≡ some e
      → Via hw i e
  update-new k hw i t j e gone there = elim (update-sender k hw i t j) [
    | inl same ↦ let h : none ≡ some e = sym gone ∙ sym same ∙ there in cc
    | inr (f, g, via) ↦
        let h : some f ≡ some e = sym g ∙ there in (ground (arith, via), ground (arith, via))
  ]
