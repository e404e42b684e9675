-- ===== src/Table/Progress.antt =====
-- What an update does to a route that is there.
use odr.Prelude.{
  ℕ, ◌+◌, ◌≡◌, refl, ap, ◌∙◌, true, false, List, some, arith, if◌then◌else◌, Bool-cases, inl, inr,
}
use odr.Prelude.Int.{ℤ, ◌-ℤ◌, ◌≤ℤ◌, ◌==ℤ◌, ltb_ℤ}
use odr.Structs.{OdrPack, Entry, type_rrep}
use odr.Platform.{Platform, AddsLast}
use odr.Table.{
  Rtbl, Offer, entry_exists_for_src, visit, refresh, add_new_entry, learn, get_index_from_ip,
  rrep_offer, replace_stale, update_rtbl_entry, update_rrep,
}
use odr.Table.Walk.{exists-first, first-append, updated}
use odr.Table.Keeps.{update-keeps}
use odr.Table.Routes.{route, route-refresh, first-key, is_stale}

module _ (p : Platform) (last : AddsLast p) where
  -- The route to `j` is there, with at most `h` hops.
  Within : ℤ → ℤ → Rtbl → Type 0
  Within j h t = (e : Entry) × (route j t ≡ some e) × (e.hop ≤ℤ h)

  visit-Within :
      (j h sp : ℤ) (o : Offer) (n : ℕ) (e : Entry)
      → e.hop ≤ℤ h
      → (f : Entry) × (updated p o sp j n (some e) ≡ some f) × (f.hop ≤ℤ h)
  unfolding visit
  visit-Within j h sp o n e b = elim (Bool-cases (j ==ℤ o.key)) [
    | inl same ↦ ((visit p o sp n e).2, rw same, ground arith)
    | inr other ↦ (e, rw other, b)
  ]

  refresh-Within :
      (j h : ℤ) (o : Offer) (t : Rtbl) → Unit {0} → Within j h t → Within j h (refresh p o t).1
  unfolding Within
  refresh-Within j h o t q (e, r, b) =
      let (f, s, c) = visit-Within j h t.sp o t.reads e b in
      (f, route-refresh p last j o t ∙ ap (updated p o t.sp j t.reads) r ∙ s, c)

  add-Within :
      (j h : ℤ) (o : Offer) (t : Rtbl)
      → entry_exists_for_src o.key t.entries ≡ false
      → Unit {0}
      → Within j h t
      → Within j h (add_new_entry p o t)
  unfolding Within add_new_entry
  add-Within j h o t new q (e, r, b) =
      (e, rw (last.rtbl_last, first-append, exists-first, r) refl, b)

  -- Where list_add adds last, no packet makes a route go away or its hop count grow, whosever
  -- route it is about.
  pub update-never_worse :
      (k : OdrPack) (hw : List ℕ) (i : ℤ) (t : Rtbl) (j : ℤ) (e : Entry)
      → route j t ≡ some e
      → (f : Entry) × (route j (update_rtbl_entry p k hw i t) ≡ some f) × (f.hop ≤ℤ e.hop)
  unfolding Within
  update-never_worse k hw i t j e r =
      update-keeps p last (Within j e.hop) (λ o. Unit {0}) (refresh-Within j e.hop)
        (add-Within j e.hop) k hw i t tt tt tt (e, r, omega arith)

  -- A stale entry is replaced, and stays under its key.
  route-learn_stale :
      (o : Offer) (t : Rtbl) (e : Entry)
      → route o.key t ≡ some e
      → is_stale p t e ≡ true
      → route o.key (learn p o t).1 ≡ some (replace_stale o (p.clock (t.reads + 1)) e)
  unfolding learn
  route-learn_stale o t e r st =
      rw (exists-first, r, learn)
        (route-refresh p last o.key o t
          ∙ ap (updated p o t.sp o.key t.reads) r
          ∙ ground (arith, visit-stale o t.sp t.reads e (first-key o.key e t.entries r) st))
    where
      visit-stale :
          (o : Offer) (sp : ℤ) (n : ℕ) (e : Entry)
          → (e.key ==ℤ o.key) ≡ true
          → ltb_ℤ sp (p.clock n -ℤ e.ts) ≡ true
          → (visit p o sp n e).2 ≡ replace_stale o (p.clock (n + 1)) e
      visit-stale o sp n e h g = unfold visit in ground arith

  -- Where list_add adds last, an RREP that finds a stale entry for its destination makes the
  -- neighbour the next hop, and leaves the smaller of the entry's hop count and the one of the
  -- RREQ header: the RREP's own hop count is not used.
  pub stale_rrep :
      (k : OdrPack) (hw : List ℕ) (i : ℤ) (t : Rtbl) (e : Entry)
      → k.type ≡ type_rrep
      → route (get_index_from_ip p k.dest_can_ip_str) t ≡ some e
      → is_stale p t e ≡ true
      → (f : Entry) × (route (get_index_from_ip p k.dest_can_ip_str) (update_rtbl_entry p k hw i t)
          ≡ some f)
        × (f.next_hop_hwaddr ≡ hw)
        × (f.hop ≡ (if ltb_ℤ k.rreq.hop e.hop then k.rreq.hop else e.hop))
  unfolding update_rtbl_entry update_rrep rrep_offer replace_stale
  stale_rrep k hw i t e ty r st =
      let o = rrep_offer p k hw i in
      let taken : update_rtbl_entry p k hw i t ≡ (learn p o t).1 = ground arith in
      (
        replace_stale o (p.clock (t.reads + 1)) e,
        ap (route o.key) taken ∙ route-learn_stale o t e r st,
        refl,
        refl,
      )
