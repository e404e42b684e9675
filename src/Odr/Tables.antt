-- ===== src/Odr/Tables.antt =====
-- What a packet does to the routing table: nothing, or the one update that notes the sender. The packet
-- of the last request stays as it is.
use odr.Prelude.{ℕ, sym, subst, List}
use odr.Prelude.Int.{ℤ}
use odr.Structs.{OdrPack}
use odr.Platform.{Platform}
use odr.Table.{Rtbl, update_rtbl_entry}
use odr.Node.{Node}
use odr.Odr.Common.{note_sender}
use odr.Odr.Frame.{SameTables}
use odr.Odr.Cases.{Ensures}
use odr.Odr.Kept.{process_pack-kept}
use odr.Odr.{process_pack}

module _ (p : Platform) (P : Rtbl → OdrPack → Type 0) where
  same : (n m : Node) → SameTables n m → P n.rtbl n.source_packet → P m.rtbl m.source_packet
  same n m s h = subst (P m.rtbl) (sym s.2) (subst (λ t. P t n.source_packet) (sym s.0) h)

  -- What holds of the table before a packet and of the updated one holds after the packet.
  pub process_pack-table :
      (k : OdrPack) (hw : List ℕ) (i : ℤ) (n : Node)
      → P (update_rtbl_entry p k hw i n.rtbl) n.source_packet
      → P n.rtbl n.source_packet
      → Ensures (λ m. P m.rtbl m.source_packet) (process_pack p k hw i n)
  unfolding note_sender
  process_pack-table k hw i n updated h =
      process_pack-kept p (λ m. P m.rtbl m.source_packet) same k (λ u x l e new f w. w) hw i n h
        (λ r. updated)
