-- ===== src/Odr.antt =====
-- `process_pack` of odr_aa19.c: the hop limit, and a case for each type of packet.
pub mod Common
pub mod Rreq
pub mod Rrep
pub mod Data
pub mod Frame
pub mod Cases
pub mod Kept
pub mod Locals
pub mod Return
pub mod Valid
pub mod Safe
pub mod Total
pub mod Flood
pub mod Sends
pub mod Again
pub mod Runs
pub mod Answers
pub mod Payloads
pub mod Uncounted
pub mod Tables
pub mod Paths
pub mod Faults
pub mod Emits
pub mod Spread
use odr.Prelude.{ℕ, ◌||◌, List, some, if◌then◌else◌}
use odr.Prelude.Int.{ℤ, pos, ltb_ℤ, ◌==ℤ◌}
use odr.Structs.{OdrPack, type_rreq, type_rrep, type_data, max_hops, minus_one}
use odr.Platform.{Platform}
use odr.Node.{Node}
use Common.{Outcome}
use Rreq.{process_rreq}
use Rrep.{process_rrep}
use Data.{process_data}

module _ (p : Platform) where
  unfoldable pub process_pack : OdrPack → List ℕ → ℤ → Node → Outcome
  process_pack k hw i n =
      if ltb_ℤ max_hops k.rreq.hop || ltb_ℤ max_hops k.rrep.hop
      then some (pos 1, n)
      else if k.type ==ℤ type_rreq
      then process_rreq p k hw i n
      else if k.type ==ℤ type_rrep
      then some (process_rrep p k hw i n)
      else if k.type ==ℤ type_data
      then some (process_data p k hw i n)
      else some (minus_one, n)
