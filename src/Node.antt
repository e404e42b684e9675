-- ===== src/Node.antt =====
-- The state of the ODR process: the globals of odr_aa19.c, rtbl.h, odr.h and common.h that it reads
-- and writes, and the locals of `main` that live from one packet to the next.
use odr.Prelude.{ℕ, List, Option, none, some, get_elem?, set, length, ltb, if◌then◌else◌}
use odr.Prelude.Int.{ℤ, pos, negsuc, to_char}
use odr.Structs.{OdrPack, IfInfo, Out}
use odr.Table.{Rtbl}

pub record Node : Type 0 where
  pub rtbl : Rtbl
  pub if_info_list : List IfInfo
  pub latest_rreq : List ℤ
  pub running_broadcast_no : ℤ
  pub forced_discovery : ℤ
  pub route_discovered : ℤ
  pub msg : List ℕ
  pub server_time_reply : List ℕ
  pub al_client_addr : List ℕ
  pub server_port : ℤ
  pub source_packet : OdrPack
  -- What was handed to `sendto`, newest first.
  pub sent : List Out

-- latest_rreq[i]. An index out of range is a fault, `none`.
unfoldable pub latest_at : ℤ → List ℤ → Option ℤ
latest_at (pos i) l = get_elem? l i
latest_at (negsuc i) l = none

-- latest_rreq[i] = v, where v is converted to `char`.
unfoldable pub latest_put : ℤ → ℤ → List ℤ → Option (List ℤ)
latest_put (pos i) v l = if ltb i (length l) then some (set l i (to_char v)) else none
latest_put (negsuc i) v l = none
