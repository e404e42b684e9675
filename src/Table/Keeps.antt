-- ===== src/Table/Keeps.antt =====
-- What an update of the table keeps: whatever a refresh keeps, and a new entry under a key that has
-- none.
use odr.Prelude.{ℕ, ◌≡◌, Bool, true, false, ◌&&◌, List, Bool-cases, inl, inr, if◌then◌else◌}
use odr.Prelude.Int.{ℤ, pos, ◌==ℤ◌}
use odr.Structs.{OdrPack, type_rreq, type_rrep, type_data, minus_one}
use odr.Platform.{Platform, AddsLast}
use odr.Table.{
  Rtbl, Offer, entry_exists_for_src, refresh, add_new_entry, learn, rreq_offer, rrep_offer,
  data_dest_offer, update_rrep_sent, update_rreq, update_rrep, update_data, update_rtbl_entry,
}
use odr.Table.Keys.{update_rrep_sent-known}

module _ {ℓ κ} (p : Platform) (last : AddsLast p) (P : Rtbl → Type ℓ) (Q : Offer → Type κ)
    (refreshes : (o : Offer) (t : Rtbl) → Q o → P t → P (refresh p o t).1)
    (adds : (o : Offer) (t : Rtbl)
      → entry_exists_for_src o.key t.entries ≡ false
      → Q o
      → P t
      → P (add_new_entry p o t)) where
  learn-keeps : (o : Offer) (t : Rtbl) → Q o → P t → P (learn p o t).1
  unfolding learn
  learn-keeps o t q h = elim (Bool-cases (entry_exists_for_src o.key t.entries)) [
    | inl old ↦ rw (old, learn) (refreshes o t q h)
    | inr new ↦ rw (new, learn) (adds o t new q h)
  ]

  module _ (k : OdrPack) (hw : List ℕ) (i : ℤ) where
    update_rreq-keeps : (t : Rtbl) → Q (rreq_offer p k hw i) → P t → P (update_rreq p k hw i t)
    unfolding update_rreq
    update_rreq-keeps t q h =
        second (learn p o t).0 (k.rreq.rrep_sent ==ℤ pos 1) (learn-keeps o t q h)
      where
        o : Offer
        o = rreq_offer p k hw i

        u : Rtbl
        u = (learn p o t).1

        second :
            (stop sent : Bool)
            → P u
            → P (if stop then u else if sent then update_rrep_sent p k hw i u else u)
        second true sent g = g
        second false true g = rw (update_rrep_sent-known p last k hw i t) (refreshes o u q g)
        second false false g = g

    update_data-keeps :
        (t : Rtbl)
        → Q (rreq_offer p k hw i)
        → Q (data_dest_offer p k hw i)
        → P t
        → P (update_data p k hw i t)
    unfolding update_data
    update_data-keeps t q r h = elim (Bool-cases src_known) [
      | inl a ↦ rw (a, update_data) (second (refresh p o t).0 (refresh p o t).1 (refreshes o t q h))
      | inr a ↦ rw (a, update_data) (second false t h)
    ]
      where
        o : Offer
        o = rreq_offer p k hw i

        d : Offer
        d = data_dest_offer p k hw i

        src_known : Bool
        src_known = entry_exists_for_src o.key t.entries && k.src_dest ==ℤ pos 1

        dest_known : Rtbl → Bool
        dest_known u = entry_exists_for_src d.key u.entries && k.src_dest ==ℤ minus_one

        second :
            (stop : Bool) (u : Rtbl)
            → P u
            → P (if stop then u else if dest_known u then (refresh p d u).1 else u)
        second true u g = g
        second false u g = elim (Bool-cases (dest_known u)) [
          | inl b ↦ rw b (refreshes d u r g)
          | inr b ↦ rw b g
        ]

    pub update-keeps :
        (t : Rtbl)
        → Q (rreq_offer p k hw i)
        → Q (rrep_offer p k hw i)
        → Q (data_dest_offer p k hw i)
        → P t
        → P (update_rtbl_entry p k hw i t)
    unfolding update_rtbl_entry update_rrep
    update-keeps t a b c h = elim (Bool-cases (k.type ==ℤ type_rreq)) [
      | inl e ↦ rw (e, update_rtbl_entry) (update_rreq-keeps t a h)
      | inr e ↦
          rw (e, update_rtbl_entry)
            (elim (Bool-cases (k.type ==ℤ type_rrep)) [
              | inl f ↦ rw (f, update_rtbl_entry) (learn-keeps (rrep_offer p k hw i) t b h)
              | inr f ↦
                  rw (f, update_rtbl_entry)
                    (elim (Bool-cases (k.type ==ℤ type_data)) [
                      | inl g ↦ rw (g, update_rtbl_entry) (update_data-keeps t a c h)
                      | inr g ↦ rw (g, update_rtbl_entry) h
                    ])
            ])
    ]
