-- ===== src/Table/Keys.antt =====
-- Which nodes have an entry after an update, and that no node has two.
use odr.Prelude.{
  ℕ, ◌≡◌, refl, true, false, List, [], ◌∷◌, ◌++◌, arith, if◌then◌else◌, Bool-cases, inl, inr,
}
use odr.Prelude.Int.{ℤ, ◌==ℤ◌, eq_of_parts}
use odr.Structs.{OdrPack, Entry, type_rreq, type_rrep}
use odr.Platform.{Platform, AddsLast}
use odr.Table.{
  Rtbl, Offer, entry_exists_for_src, visit, walk, refresh, add_new_entry, learn, rreq_offer,
  rrep_offer, get_index_from_ip, update_rrep_sent, update_rreq, update_rrep, update_rtbl_entry,
}
use odr.Table.Walk.{exists-append, exists-walk, visit-key}

-- No key is listed twice.
abbrev pub Distinct : List Entry → Type 0
Distinct [] = Unit
Distinct (e ∷ es) = (entry_exists_for_src e.key es ≡ false) × Distinct es

pub Distinct-append :
    (es : List Entry) (e : Entry)
    → Distinct es
    → entry_exists_for_src e.key es ≡ false
    → Distinct (es ++ e ∷ [])
unfolding entry_exists_for_src
Distinct-append [] e d h = (refl, tt)
Distinct-append (x ∷ es) e d h = ground (arith, exists-append x.key es e, Distinct-append es e d.1)

pub Distinct-walk :
    (p : Platform) (o : Offer) (sp : ℤ) (n : ℕ) (es : List Entry)
    → Distinct es
    → Distinct (walk p o sp n es).entries
unfolding walk
Distinct-walk p o sp n [] d = tt
Distinct-walk p o sp n (e ∷ es) d = ground (
  arith,
  visit-key p o sp n e,
  exists-walk p o sp e.key (visit p o sp n e).1 es,
  Distinct-walk p o sp (visit p o sp n e).1 es d.1,
)

module _ (p : Platform) (last : AddsLast p) where
  pub exists-refresh :
      (k : ℤ) (o : Offer) (t : Rtbl)
      → entry_exists_for_src k (refresh p o t).1.entries ≡ entry_exists_for_src k t.entries
  unfolding refresh
  exists-refresh k o t = exists-walk p o t.sp k t.reads t.entries

  pub exists-add :
      (k : ℤ) (o : Offer) (t : Rtbl)
      → entry_exists_for_src k (add_new_entry p o t).entries
        ≡ (if entry_exists_for_src k t.entries then true else o.key ==ℤ k)
  unfolding add_new_entry
  exists-add k o t = rw (last.rtbl_last) (exists-append k t.entries _)

  pub exists-learn :
      (k : ℤ) (o : Offer) (t : Rtbl)
      → entry_exists_for_src k (learn p o t).1.entries
        ≡ (if entry_exists_for_src k t.entries then true else o.key ==ℤ k)
  unfolding learn
  exists-learn k o t = ground (arith, exists-refresh k o t, exists-add k o t, eq_of_parts o.key k)

  pub learn-known :
      (o : Offer) (t : Rtbl) → entry_exists_for_src o.key (learn p o t).1.entries ≡ true
  learn-known o t = ground (arith, exists-learn o.key o t)

  pub Distinct-learn :
      (o : Offer) (t : Rtbl) → Distinct t.entries → Distinct (learn p o t).1.entries
  unfolding learn refresh add_new_entry
  Distinct-learn o t d = elim (Bool-cases (entry_exists_for_src o.key t.entries)) [
    | inl old ↦ rw (old, learn) (Distinct-walk p o t.sp t.reads t.entries d)
    | inr new ↦ rw (new, learn) (rw (last.rtbl_last) (Distinct-append t.entries _ d new))
  ]

  pub Distinct-refresh :
      (o : Offer) (t : Rtbl) → Distinct t.entries → Distinct (refresh p o t).1.entries
  unfolding refresh
  Distinct-refresh o t d = Distinct-walk p o t.sp t.reads t.entries d

  module _ (k : OdrPack) (hw : List ℕ) (i : ℤ) where
    -- An RREQ with `rrep_sent` finds the entry that its first half made or refreshed.
    pub update_rrep_sent-known :
        (t : Rtbl)
        → update_rrep_sent p k hw i (learn p (rreq_offer p k hw i) t).1
          ≡ (refresh p (rreq_offer p k hw i) (learn p (rreq_offer p k hw i) t).1).1
    unfolding update_rrep_sent
    update_rrep_sent-known t = rw (learn-known (rreq_offer p k hw i) t)

    pub exists-update_rreq :
        (j : ℤ) (t : Rtbl)
        → entry_exists_for_src j (update_rreq p k hw i t).entries ≡ (
            if entry_exists_for_src j t.entries
            then true
            else get_index_from_ip p k.src_can_ip_str ==ℤ j)
    unfolding update_rreq rreq_offer
    exists-update_rreq j t =
        let o = rreq_offer p k hw i in
        ground
          (arith, exists-learn j o t, update_rrep_sent-known t, exists-refresh j o (learn p o t).1)

    pub exists-update_rrep :
        (j : ℤ) (t : Rtbl)
        → entry_exists_for_src j (update_rrep p k hw i t).entries ≡ (
            if entry_exists_for_src j t.entries
            then true
            else get_index_from_ip p k.dest_can_ip_str ==ℤ j)
    unfolding update_rrep rrep_offer
    exists-update_rrep j t = exists-learn j (rrep_offer p k hw i) t

    -- After an RREQ the table has an entry for its source, after an RREP one for its destination.
    pub update-known_src :
        (t : Rtbl)
        → k.type ≡ type_rreq
        → entry_exists_for_src
            (get_index_from_ip p k.src_can_ip_str)
            (update_rtbl_entry p k hw i t).entries
          ≡ true
    unfolding update_rtbl_entry
    update-known_src t h =
        ground (arith, exists-update_rreq (get_index_from_ip p k.src_can_ip_str) t)

    pub update-known_dest :
        (t : Rtbl)
        → k.type ≡ type_rrep
        → entry_exists_for_src
            (get_index_from_ip p k.dest_can_ip_str)
            (update_rtbl_entry p k hw i t).entries
          ≡ true
    unfolding update_rtbl_entry
    update-known_dest t h =
        ground (arith, exists-update_rrep (get_index_from_ip p k.dest_can_ip_str) t)
