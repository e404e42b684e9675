-- ===== src/Odr/Valid.antt =====
-- The invariant of the node: a valid routing table, and the eleven slots of `latest_rreq`.
use odr.Prelude.{ℕ, ◌≡◌, sym, subst, ◌∙◌, List, some, arith, length, length-set}
use odr.Prelude.Int.{ℤ, pos, negsuc, to_char}
use odr.Structs.{OdrPack}
use odr.Platform.{Platform, AddsLast}
use odr.Table.Valid
use odr.Table.Valid.{InRange, update-IsValid}
use odr.Node.{Node, latest_put}
use odr.Odr.Common.{note_sender}
use odr.Odr.Frame.{SameTables}
use odr.Odr.Cases.{Ensures}
use odr.Odr.Kept.{process_pack-kept}
use odr.Odr.{process_pack}

pub record IsValid (n : Node) : Type 0 where
  pub table : Valid.IsValid n.rtbl
  pub slots : length n.latest_rreq ≡ 11

SameTables-IsValid : (n m : Node) → SameTables n m → IsValid n → IsValid m
SameTables-IsValid n m s v = record {
  table = subst Valid.IsValid (sym s.0) v.table;
  slots = subst (λ l. length l ≡ 11) (sym s.1) v.slots;
}

pub latest_put-length : (i v : ℤ) (l m : List ℤ) → latest_put i v l ≡ some m → length m ≡ length l
unfolding latest_put
latest_put-length (pos i) v l m h = ground (arith, length-set l i (to_char v))
latest_put-length (negsuc i) v l m h = cc

module _ (p : Platform) (last : AddsLast p) where
  note_sender-IsValid :
      (k : OdrPack) (hw : List ℕ) (i : ℤ) (n : Node)
      → InRange k
      → IsValid n
      → IsValid (note_sender p k hw i n)
  unfolding note_sender
  note_sender-IsValid k hw i n r v = record {
    table = update-IsValid p last k hw i n.rtbl r v.table;
    slots = v.slots;
  }

  -- Where list_add adds last, process_pack keeps the invariant on every packet that it handles
  -- without an access out of bounds: one entry for each node, no hop count above MAXH, eleven
  -- slots in `latest_rreq`.
  pub process_pack-IsValid :
      (k : OdrPack) (hw : List ℕ) (i : ℤ) (n : Node)
      → IsValid n
      → Ensures IsValid (process_pack p k hw i n)
  process_pack-IsValid k hw i n v =
      process_pack-kept p IsValid SameTables-IsValid k
        (λ u x l e new f w. record {
          table = w.table;
          slots = latest_put-length _ _ u.latest_rreq l f ∙ w.slots;
        })
        hw i n v (λ r. note_sender-IsValid k hw i n r v)
