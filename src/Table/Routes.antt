-- ===== src/Table/Routes.antt =====
-- The table as a map from nodes to routes.
use odr.Prelude.{
  ℕ, ◌≡◌, refl, sym, ap, ◌∙◌, Bool, true, false, List, [], ◌∷◌, Option, none, some, arith,
  if◌then◌else◌, Bool-cases, Option-cases, inl, inr,
}
use odr.Prelude.Int.{ℤ, pos, ◌-ℤ◌, ◌==ℤ◌, ltb_ℤ, ==ℤ_refl}
use odr.Structs.{OdrPack, Entry}
use odr.Platform.{Platform, AddsLast}
use odr.Table.{
  Rtbl, Offer, first_with, entry_exists_for_src, visit, refresh, add_new_entry, learn, rreq_offer,
  get_index_from_ip, get_rtbl_entry, update_rrep_sent, update_rreq,
}
use odr.Table.Walk.{exists-first, first-append, updated, updated_other, first-walk}
use odr.Table.Keys.{update_rrep_sent-known, learn-known}

abbrev pub route : ℤ → Rtbl → Option Entry
route k t = first_with k t.entries

abbrev pub hop_of : Option Entry → Option ℤ
hop_of none = none
hop_of (some e) = some e.hop

-- The smaller of a known hop count and a new one.
abbrev pub best : Option ℤ → ℤ → Option ℤ
best none h = some h
best (some g) h = some (if ltb_ℤ h g then h else g)

-- Whether an entry is refreshed as stale by a walk that begins now.
abbrev pub is_stale : Platform → Rtbl → Entry → Bool
is_stale p t e = ltb_ℤ t.sp (p.clock t.reads -ℤ e.ts)

pub first-key :
    (k : ℤ) (e : Entry) (es : List Entry) → first_with k es ≡ some e → (e.key ==ℤ k) ≡ true
unfolding first_with
first-key k e [] h = cc
first-key k e (x ∷ es) h = ground (arith, first-key k e es)

best-best : (x : Option ℤ) (g h : ℤ) → some g ≡ best x h → best (some g) h ≡ best x h
best-best none g h e = ground arith
best-best (some f) g h e = ground arith

module _ (p : Platform) (last : AddsLast p) where
  pub route-refresh :
      (j : ℤ) (o : Offer) (t : Rtbl)
      → route j (refresh p o t).1 ≡ updated p o t.sp j t.reads (route j t)
  unfolding refresh
  route-refresh j o t = first-walk p o t.sp j t.reads t.entries

  -- No refresh and no new entry touches another node's route.
  pub route-refresh_other :
      (j : ℤ) (o : Offer) (t : Rtbl) → (j ==ℤ o.key) ≡ false → route j (refresh p o t).1 ≡ route j t
  route-refresh_other j o t h =
      ground (arith, route-refresh j o t, updated_other p o t.sp j t.reads (route j t) h)

  route-learn_other :
      (j : ℤ) (o : Offer) (t : Rtbl) → (j ==ℤ o.key) ≡ false → route j (learn p o t).1 ≡ route j t
  unfolding learn add_new_entry
  route-learn_other j o t h = elim (Bool-cases (entry_exists_for_src o.key t.entries)) [
    | inl old ↦ rw (old, learn) (route-refresh_other j o t h)
    | inr new ↦
        rw (new, learn)
          (rw (last.rtbl_last, first-append) (ground (arith, exists-first j t.entries)))
  ]

  same : (k : OdrPack) (hw : List ℕ) (i : ℤ) → let o = rreq_offer p k hw i in o.stale_hop ≡ o.hop
  unfolding rreq_offer
  same k hw i = refl

  -- The hop count that an offer leaves, when both of its counts are the same.
  hop-visit :
      (o : Offer) (sp : ℤ) (n : ℕ) (e : Entry)
      → (e.key ==ℤ o.key) ≡ true
      → o.stale_hop ≡ o.hop
      → hop_of (some (visit p o sp n e).2) ≡ best (some e.hop) o.hop
  unfolding visit
  hop-visit o sp n e h s = ground arith

  -- The route to the offer's own node, after one pass with equal counts.
  hop-refresh :
      (o : Offer) (t : Rtbl)
      → o.stale_hop ≡ o.hop
      → (e : Entry) → route o.key t ≡ some e
      → hop_of (route o.key (refresh p o t).1) ≡ best (some e.hop) o.hop
  hop-refresh o t s e h =
      ground
        (arith, route-refresh o.key o t, first-key o.key e t.entries h, hop-visit o t.sp t.reads e)

  hop-learn :
      (o : Offer) (t : Rtbl)
      → o.stale_hop ≡ o.hop
      → hop_of (route o.key (learn p o t).1) ≡ best (hop_of (route o.key t)) o.hop
  unfolding learn add_new_entry
  hop-learn o t s = elim (Option-cases (route o.key t)) [
    | inl new ↦
        rw (exists-first, new, learn)
          (rw (last.rtbl_last, first-append, exists-first, new) (ground (arith, ==ℤ_refl o.key)))
    | inr (e, old) ↦ rw (exists-first, old, learn) (hop-refresh o t s e old)
  ]

  hop-update_rrep_sent :
      (k : OdrPack) (hw : List ℕ) (i : ℤ) (t : Rtbl)
      → let o = rreq_offer p k hw i in
        hop_of (route o.key (update_rrep_sent p k hw i (learn p o t).1))
        ≡ best (hop_of (route o.key t)) o.hop
  hop-update_rrep_sent k hw i t =
      let o = rreq_offer p k hw i in
      elim (Option-cases (route o.key (learn p o t).1)) [
        | inl lost ↦
            ground (arith, learn-known p last o t, exists-first o.key (learn p o t).1.entries)
        | inr (e, kept) ↦ rw (update_rrep_sent-known p last k hw i t) (
            hop-refresh o (learn p o t).1 (same k hw i) e kept
            ∙ best-best _ e.hop o.hop (ap hop_of (sym kept) ∙ hop-learn o t (same k hw i)))
      ]

  -- Where list_add adds last, an RREQ leaves its source with the smaller of the known hop count
  -- and its own, whether or not there was an entry, it was stale, or the RREQ was answered
  -- already.
  pub hop-update_rreq :
      (k : OdrPack) (hw : List ℕ) (i : ℤ) (t : Rtbl)
      → let j = get_index_from_ip p k.src_can_ip_str in
        hop_of (route j (update_rreq p k hw i t)) ≡ best (hop_of (route j t)) k.rreq.hop
  unfolding update_rreq rreq_offer
  hop-update_rreq k hw i t = second (learn p (rreq_offer p k hw i) t).0 (k.rreq.rrep_sent ==ℤ pos 1)
    where
      j : ℤ
      j = get_index_from_ip p k.src_can_ip_str

      u : Rtbl
      u = (learn p (rreq_offer p k hw i) t).1

      second :
          (stop sent : Bool)
          → hop_of (route j (if stop then u else if sent then update_rrep_sent p k hw i u else u))
            ≡ best (hop_of (route j t)) k.rreq.hop
      second true sent = hop-learn (rreq_offer p k hw i) t refl
      second false true = hop-update_rrep_sent k hw i t
      second false false = hop-learn (rreq_offer p k hw i) t refl

-- The lookup gives the route of the text's node, and -1 exactly when there is none.
abbrev pub hop_to : Option Entry → Option (List ℕ × ℤ × ℤ)
hop_to none = none
hop_to (some e) = some (e.next_hop_hwaddr, e.if_no, e.hop)

pub get-route :
    (p : Platform) (ip : List ℕ) (es : List Entry)
    → get_rtbl_entry p ip es ≡ hop_to (first_with (get_index_from_ip p ip) es)
unfolding get_rtbl_entry
get-route p ip es = ground (arith, exists-first (get_index_from_ip p ip) es)

pub route-known :
    (j : ℤ) (es : List Entry)
    → entry_exists_for_src j es ≡ true
    → (e : Entry) × (first_with j es ≡ some e)
route-known j es h = elim (Option-cases (first_with j es)) [
  | inl gone ↦ absurd (ground (arith, exists-first j es))
  | inr found ↦ found
]
