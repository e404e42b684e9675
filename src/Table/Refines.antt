-- ===== src/Table/Refines.antt =====
-- The list of rtbl.h implements the map.

use odr.Prelude.{
  ℕ, ◌≡◌, refl, ap, ◌∙◌, Bool, true, false, ◌&&◌, List, arith, if◌then◌else◌, Bool-cases,
  Option-cases, inl, inr,
}
use odr.Prelude.Int.{ℤ, pos, ◌==ℤ◌}
use odr.Structs.{OdrPack, type_rreq, type_rrep, type_data, minus_one}
use odr.Platform.{Platform, AddsLast}
use odr.Table.{
  Rtbl, Offer, entry_exists_for_src, refresh, learn, rreq_offer, rrep_offer, data_dest_offer,
  update_rreq, update_rrep, update_data, update_rtbl_entry, update_rrep_sent,
}
use odr.Table.Walk.{exists-first}
use odr.Table.Keys.{Distinct, Distinct-learn, Distinct-refresh, update_rrep_sent-known}
use odr.Table.Routes.{route}
use odr.Table.Map.{Map, view, refreshed, learned, unless_ended, updated_map}
use odr.Table.Revises.{refresh-refines, learn-refines}

module _ (p : Platform) (last : AddsLast p) where
  -- A refresh under a test of the table and another condition.
  abbrev tried : Offer → Bool → Rtbl → Bool × Rtbl
  tried o b t = if entry_exists_for_src o.key t.entries && b then refresh p o t else (false, t)

  tried-refines :
      (o : Offer) (b : Bool) (t : Rtbl)
      → Distinct t.entries
      → ◌≡◌ {A = Bool × Map}
          ((tried o b t).0, view (tried o b t).1)
          (if b then refreshed p o (view t) else (false, view t))
  tried-refines o false t d = elim (Bool-cases (entry_exists_for_src o.key t.entries)) [
    | inl old ↦ rw old refl
    | inr new ↦ rw new refl
  ]
  tried-refines o true t d = elim (Bool-cases (entry_exists_for_src o.key t.entries)) [
    | inl old ↦ rw old (refresh-refines p last o t d)
    | inr new ↦
        unfold refreshed in
        rw new (elim (Option-cases (route o.key t)) [
          | inl gone ↦ rw (gone, refreshed) refl
          | inr (e, r) ↦ absurd (ground (arith, exists-first o.key t.entries))
        ])
  ]

  Distinct-tried :
      (o : Offer) (b : Bool) (t : Rtbl) → Distinct t.entries → Distinct (tried o b t).1.entries
  Distinct-tried o b t d = elim (Bool-cases (entry_exists_for_src o.key t.entries && b)) [
    | inl go ↦ rw go (Distinct-refresh p last o t d)
    | inr stay ↦ rw stay d
  ]

  tried-last :
      (o : Offer) (b : Bool) (t : Rtbl)
      → Distinct t.entries
      → view (if entry_exists_for_src o.key t.entries && b then (refresh p o t).1 else t)
        ≡ (if b then (refreshed p o (view t)).1 else view t)
  tried-last o b t d =
      code (entry_exists_for_src o.key t.entries && b)
      ∙ ap (λ (x : Bool × Map). x.1) (tried-refines o b t d)
      ∙ spec b
    where
      code :
          (c : Bool)
          → view (if c then (refresh p o t).1 else t)
            ≡ view (if c then refresh p o t else (false, t)).1
      code true = refl
      code false = refl

      spec :
          (c : Bool)
          → (if c then refreshed p o (view t) else (false, view t)).1
            ≡ (if c then (refreshed p o (view t)).1 else view t)
      spec true = refl
      spec false = refl

  module _ (k : OdrPack) (hw : List ℕ) (i : ℤ) where
    again : Map → Map
    again u = if k.rreq.rrep_sent ==ℤ pos 1 then (refreshed p (rreq_offer p k hw i) u).1 else u

    rreq-refines :
        (t : Rtbl)
        → Distinct t.entries
        → view (update_rreq p k hw i t)
          ≡ unless_ended again (learned p (rreq_offer p k hw i) (view t))
    unfolding update_rreq again
    rreq-refines t d =
        second (learn p o t).0 (k.rreq.rrep_sent ==ℤ pos 1)
        ∙ ap (unless_ended again) (learn-refines p last o t d)
      where
        o : Offer
        o = rreq_offer p k hw i

        u : Rtbl
        u = (learn p o t).1

        second :
            (stop sent : Bool)
            → view (if stop then u else if sent then update_rrep_sent p k hw i u else u)
              ≡ unless_ended (λ m. if sent then (refreshed p o m).1 else m) (stop, view u)
        second true sent = refl
        second false true =
            ap view (update_rrep_sent-known p last k hw i t)
            ∙ ap (λ (x : Bool × Map). x.1)
                (refresh-refines p last o u (Distinct-learn p last o t d))
        second false false = refl

    back : Map → Map
    back u = if k.src_dest ==ℤ minus_one then (refreshed p (data_dest_offer p k hw i) u).1 else u

    data-refines :
        (t : Rtbl)
        → Distinct t.entries
        → view (update_data p k hw i t)
          ≡ unless_ended back (
              if k.src_dest ==ℤ pos 1
              then refreshed p (rreq_offer p k hw i) (view t)
              else (false, view t))
    unfolding update_data back
    data-refines t d =
        second x.0
        ∙ ap (unless_ended back) (tried-refines (rreq_offer p k hw i) (k.src_dest ==ℤ pos 1) t d)
      where
        x : Bool × Rtbl
        x = tried (rreq_offer p k hw i) (k.src_dest ==ℤ pos 1) t

        o : Offer
        o = data_dest_offer p k hw i

        towards : Bool
        towards = k.src_dest ==ℤ minus_one

        second :
            (stop : Bool)
            → view (
                if stop
                then x.1
                else if entry_exists_for_src o.key x.1.entries && towards
                then (refresh p o x.1).1
                else x.1)
              ≡ unless_ended (λ m. if towards then (refreshed p o m).1 else m) (stop, view x.1)
        second true = refl
        second false =
            tried-last o towards x.1
              (Distinct-tried (rreq_offer p k hw i) (k.src_dest ==ℤ pos 1) t d)

    -- Where list_add adds last, update_rtbl_entry does to the map that a table stands for, from
    -- nodes to routes, what the map's own specification says: an offered route is added, replaces
    -- a stale one with the smaller hop count, or betters a longer one. This holds for every
    -- packet and every table with one entry for each node.
    pub update-refines :
        (t : Rtbl)
        → Distinct t.entries
        → view (update_rtbl_entry p k hw i t) ≡ updated_map p k hw i (view t)
    unfolding update_rtbl_entry update_rrep updated_map again back
    update-refines t d = elim (Bool-cases (k.type ==ℤ type_rreq)) [
      | inl a ↦ rw a (rreq-refines t d)
      | inr a ↦ elim (Bool-cases (k.type ==ℤ type_rrep)) [
        | inl b ↦
            rw (a, b)
              (ap (λ (x : Bool × Map). x.1) (learn-refines p last (rrep_offer p k hw i) t d))
        | inr b ↦ elim (Bool-cases (k.type ==ℤ type_data)) [
          | inl c ↦ rw (a, b, c) (data-refines t d)
          | inr c ↦ rw (a, b, c) refl
        ]
      ]
    ]
