-- ===== src/Odr/Cases.antt =====
-- The branches of `process_pack`, as a rule for what holds of its outcome.
use odr.Prelude.{
  ℕ, ◌≡◌, ◌≢◌, Bool, true, false, ◌||◌, List, none, some, arith, Bool-cases, inl, inr,
}
use odr.Prelude.Int.{ℤ, pos, ltb_ℤ, ◌==ℤ◌, ==ℤ_iff, ==ℤ_ne}
use odr.Structs.{OdrPack, max_hops, minus_one, type_rreq, type_rrep, type_data}
use odr.Platform.{Platform}
use odr.Table.Valid.{InRange}
use odr.Node.{Node}
use odr.Odr.Common.{Outcome}
use odr.Odr.Rreq.{process_rreq}
use odr.Odr.Rrep.{process_rrep}
use odr.Odr.Data.{process_data}
use odr.Odr.{process_pack}

-- What holds of the state after a packet, unless the access was out of bounds.
abbrev pub Ensures : (Node → Type 0) → Outcome → Type 0
Ensures P none = Unit
Ensures P (some r) = P r.1

pub Ensures-both :
    (P Q : Node → Type 0) (o : Outcome) → Ensures P o → Ensures Q o → Ensures (λ n. P n × Q n) o
Ensures-both P Q none a b = tt
Ensures-both P Q (some r) a b = (a, b)

-- The rule of consequence.
pub Ensures-imp :
    (P Q : Node → Type 0) (o : Outcome) → ((n : Node) → P n → Q n) → Ensures P o → Ensures Q o
Ensures-imp P Q none f a = tt
Ensures-imp P Q (some r) f a = f r.1 a

abbrev pub over_limit : OdrPack → Bool
over_limit k = ltb_ℤ max_hops k.rreq.hop || ltb_ℤ max_hops k.rrep.hop

pub in_range : (k : OdrPack) → over_limit k ≡ false → InRange k
in_range k h = ground arith

pub not_over : (k : OdrPack) → InRange k → over_limit k ≡ false
not_over k h = ground arith

module _ {ℓ} (p : Platform) (k : OdrPack) (hw : List ℕ) (i : ℤ) (n : Node)
    (P : Outcome → Type ℓ) where
  pub process_pack-cases :
      (over_limit k ≡ true → P (some (pos 1, n)))
      → (InRange k → k.type ≡ type_rreq → P (process_rreq p k hw i n))
      → (InRange k → k.type ≡ type_rrep → P (some (process_rrep p k hw i n)))
      → (InRange k → k.type ≡ type_data → P (some (process_data p k hw i n)))
      → (k.type ≢ type_rreq → k.type ≢ type_rrep → k.type ≢ type_data → P (some (minus_one, n)))
      → P (process_pack p k hw i n)
  unfolding process_pack
  process_pack-cases over rreq rrep payload other = elim (Bool-cases (over_limit k)) [
    | inl h ↦ rw (h, process_pack) (over h)
    | inr h ↦
        rw (h, process_pack)
          (elim (Bool-cases (k.type ==ℤ type_rreq)) [
            | inl a ↦ rw (a, process_pack) (rreq (in_range k h) ((==ℤ_iff k.type type_rreq).0 a))
            | inr a ↦
                rw (a, process_pack)
                  (elim (Bool-cases (k.type ==ℤ type_rrep)) [
                    | inl b ↦
                        rw (b, process_pack) (rrep (in_range k h) ((==ℤ_iff k.type type_rrep).0 b))
                    | inr b ↦
                        rw (b, process_pack)
                          (elim (Bool-cases (k.type ==ℤ type_data)) [
                            | inl c ↦
                                rw (c, process_pack)
                                  (payload (in_range k h) ((==ℤ_iff k.type type_data).0 c))
                            | inr c ↦
                                rw (c, process_pack)
                                  (other (==ℤ_ne k.type type_rreq a) (==ℤ_ne k.type type_rrep b)
                                    (==ℤ_ne k.type type_data c))
                          ])
                  ])
          ])
  ]
