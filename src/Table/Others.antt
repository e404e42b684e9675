-- ===== src/Table/Others.antt =====
-- The routes that a packet is not about.
use odr.Prelude.{
  ℕ, ◌≡◌, ◌≢◌, refl, ap, ◌∙◌, Bool, true, false, List, Option, Bool-cases, Option-cases, inl, inr,
}
use odr.Prelude.Int.{ℤ, pos, ◌-ℤ◌, ◌==ℤ◌, ltb_ℤ, ==ℤ_iff}
use odr.Structs.{OdrPack, Entry, type_rrep, type_data, minus_one}
use odr.Platform.{Platform, AddsLast}
use odr.Table.{
  Rtbl, Offer, get_index_from_ip, update_rtbl_entry, rreq_offer, rrep_offer, data_dest_offer,
}
use odr.Table.Keys.{Distinct}
use odr.Table.Routes.{route}
use odr.Table.Map.{Map, view, put, revise, learned, refreshed, updated_map, unless_ended}
use odr.Table.Refines.{update-refines}

put_other : (j l : ℤ) (e : Entry) (f : ℤ → Option Entry) → j ≢ l → put l e f j ≡ f j
put_other j l e f d = elim (Bool-cases (j ==ℤ l)) [
  | inl hit ↦ absurd (d ((==ℤ_iff j l).0 hit))
  | inr miss ↦ rw miss
]

module _ (p : Platform) where
  revise_other :
      (o : Offer) (e : Entry) (m : Map) (j : ℤ) → j ≢ o.key → (revise p o e m).1.find j ≡ m.find j
  unfolding revise
  revise_other o e m j d = elim (Bool-cases (ltb_ℤ m.sp (p.clock m.reads -ℤ e.ts))) [
    | inl stale ↦ rw (stale, revise) (put_other j o.key _ m.find d)
    | inr fresh ↦
        rw (fresh, revise)
          (elim (Bool-cases (ltb_ℤ o.hop e.hop)) [
            | inl short ↦ rw (short, revise) (put_other j o.key _ m.find d)
            | inr long ↦ rw (long, revise) refl
          ])
  ]

  learned_other : (o : Offer) (m : Map) (j : ℤ) → j ≢ o.key → (learned p o m).1.find j ≡ m.find j
  unfolding learned
  learned_other o m j d = elim (Option-cases (m.find o.key)) [
    | inl gone ↦ rw (gone, learned) (put_other j o.key _ m.find d)
    | inr (e, h) ↦ rw (h, learned) (revise_other o e m j d)
  ]

  -- An RREP is about the route to its destination only.
  pub rrep_other :
      AddsLast p
      → (k : OdrPack) (hw : List ℕ) (i : ℤ) (t : Rtbl) (j : ℤ) → Distinct t.entries
      → k.type ≡ type_rrep
      → j ≢ get_index_from_ip p k.dest_can_ip_str
      → route j (update_rtbl_entry p k hw i t) ≡ route j t
  unfolding updated_map rrep_offer
  rrep_other last k hw i t j v y d =
      ap (λ (x : Map). x.find j) (update-refines p last k hw i t v)
      ∙ rw y (learned_other (rrep_offer p k hw i) (view t) j d)

ended : (x : Bool × Map) → unless_ended (λ u. u) x ≡ x.1
ended (true, m) = refl
ended (false, m) = refl

module _ (p : Platform) where
  refreshed_other :
      (o : Offer) (m : Map) (j : ℤ) → j ≢ o.key → (refreshed p o m).1.find j ≡ m.find j
  unfolding refreshed
  refreshed_other o m j d = elim (Option-cases (m.find o.key)) [
    | inl gone ↦ rw (gone, refreshed) refl
    | inr (e, h) ↦ rw (h, refreshed) (revise_other p o e m j d)
  ]

  module _ (last : AddsLast p) (k : OdrPack) (hw : List ℕ) (i : ℤ) (t : Rtbl) (j : ℤ)
      (v : Distinct t.entries) (y : k.type ≡ type_data) where
    -- A request on its way is about the route to its source only, and an answer about the one to its
    -- destination.
    pub request_other :
        k.src_dest ≡ pos 1
        → j ≢ get_index_from_ip p k.src_can_ip_str
        → route j (update_rtbl_entry p k hw i t) ≡ route j t
    unfolding updated_map rreq_offer
    request_other out d =
        ap (λ (x : Map). x.find j) (update-refines p last k hw i t v)
        ∙ rw y (
            rw out (
              ap (λ (x : Map). x.find j) (ended (refreshed p (rreq_offer p k hw i) (view t)))
              ∙ refreshed_other (rreq_offer p k hw i) (view t) j d))

    pub answer_other :
        k.src_dest ≡ minus_one
        → j ≢ get_index_from_ip p k.dest_can_ip_str
        → route j (update_rtbl_entry p k hw i t) ≡ route j t
    unfolding updated_map data_dest_offer
    answer_other out d =
        ap (λ (x : Map). x.find j) (update-refines p last k hw i t v)
        ∙ rw y (rw out (refreshed_other (data_dest_offer p k hw i) (view t) j d))
