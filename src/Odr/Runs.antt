-- ===== src/Odr/Runs.antt =====
-- The node after a packet, with what it sent.
use odr.Prelude.{◌≡◌, refl, subst, List, none, some}
use odr.Prelude.Int.{ℤ}
use odr.Structs.{Out}
use odr.Node.{Node}
use odr.Odr.Common.{Outcome}
use odr.Odr.Cases.{Ensures}
use odr.Odr.Sends.{Sent}

pub record Runs (o : Outcome) (s : List Out) : Type 0 where
  pub ret : ℤ
  pub after : Node
  pub runs : o ≡ some (ret, after)
  pub sends : after.sent ≡ s

pub Sent-Runs : (o : Outcome) (s : List Out) → Sent o s → Runs o s
Sent-Runs none s h = absurd h
Sent-Runs (some (ret, m)) s h = record { ret = ret; after = m; runs = refl; sends = h }

-- What is sure of the state after a packet.
pub Runs-Ensures :
    (P : Node → Type 0) (o : Outcome) (s : List Out) (r : Runs o s) → Ensures P o → P r.after
Runs-Ensures P o s r h = subst (Ensures P) r.runs h
