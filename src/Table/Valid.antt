-- ===== src/Table/Valid.antt =====
-- The invariant of the routing table.
use odr.Prelude.{ℕ, ◌≡◌, false, List, arith, All, All-append}
use odr.Prelude.Int.{ℤ, ◌≤ℤ◌}
use odr.Structs.{OdrPack, Entry, max_hops}
use odr.Platform.{Platform, AddsLast}
use odr.Table.{
  Rtbl, Offer, visit, refresh, add_new_entry, rreq_offer, rrep_offer, data_dest_offer,
  update_rtbl_entry, entry_exists_for_src,
}
use odr.Table.Walk.{All-walk}
use odr.Table.Keys.{Distinct, Distinct-refresh, Distinct-append}
use odr.Table.Keeps.{update-keeps}

abbrev pub Bounded : Entry → Type 0
Bounded e = e.hop ≤ℤ max_hops

-- One entry for each node, and no hop count above MAXH.
pub record IsValid (t : Rtbl) : Type 0 where
  pub distinct : Distinct t.entries
  pub bounded : All Bounded t.entries

abbrev OfferBounded : Offer → Type 0
OfferBounded o = (o.stale_hop ≤ℤ max_hops) × (o.hop ≤ℤ max_hops)

visit-Bounded :
    (p : Platform) (o : Offer) (sp : ℤ)
    → OfferBounded o
    → (n : ℕ) (e : Entry) → Bounded e
    → Bounded (visit p o sp n e).2
unfolding visit
visit-Bounded p o sp q n e h = ground arith

-- Both headers of the packet are within the hop limit, as `process_pack` checks.
abbrev pub InRange : OdrPack → Type 0
InRange k = (k.rreq.hop ≤ℤ max_hops) × (k.rrep.hop ≤ℤ max_hops)

module _ (p : Platform) (last : AddsLast p) where
  refresh-IsValid : (o : Offer) (t : Rtbl) → OfferBounded o → IsValid t → IsValid (refresh p o t).1
  unfolding refresh
  refresh-IsValid o t q v = record {
    distinct = Distinct-refresh p last o t v.distinct;
    bounded = All-walk p o t.sp Bounded (visit-Bounded p o t.sp q) t.reads t.entries v.bounded;
  }

  add-IsValid :
      (o : Offer) (t : Rtbl)
      → entry_exists_for_src o.key t.entries ≡ false
      → OfferBounded o
      → IsValid t
      → IsValid (add_new_entry p o t)
  unfolding add_new_entry
  add-IsValid o t new q v = record {
    distinct = rw (last.rtbl_last) (Distinct-append t.entries _ v.distinct new);
    bounded = rw (last.rtbl_last) (All-append Bounded t.entries _ v.bounded (q.1, tt));
  }

  pub update-IsValid :
      (k : OdrPack) (hw : List ℕ) (i : ℤ) (t : Rtbl)
      → InRange k
      → IsValid t
      → IsValid (update_rtbl_entry p k hw i t)
  unfolding rreq_offer rrep_offer data_dest_offer
  update-IsValid k hw i t r v =
      update-keeps p last IsValid OfferBounded refresh-IsValid add-IsValid k hw i t (r.0, r.0) r
        (r.0, r.0) v
