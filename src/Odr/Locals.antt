-- ===== src/Odr/Locals.antt =====
-- What a packet leaves alone in a node, whatever it is: the interfaces, the client's address, the size of the
-- array for the server's reply, and the running number.
use odr.Prelude.{ℕ, ◌≡◌, ◌∙◌, refl, List, length}
use odr.Prelude.Int.{ℤ}
use odr.Structs.{OdrPack}
use odr.Platform.{Platform}
use odr.Node.{Node}
use odr.Odr.Common.{note_sender}
use odr.Odr.Frame.{SameTables}
use odr.Odr.Kept.{process_pack-kept}
use odr.Odr.Cases.{Ensures}
use odr.Odr.{process_pack}

pub record SameLocals (n m : Node) : Type 0 where
  pub interfaces : m.if_info_list ≡ n.if_info_list
  pub client : m.al_client_addr ≡ n.al_client_addr
  pub running : m.running_broadcast_no ≡ n.running_broadcast_no
  pub reply : length m.server_time_reply ≡ length n.server_time_reply

SameTables-SameLocals : (o n m : Node) → SameTables n m → SameLocals o n → SameLocals o m
SameTables-SameLocals o n m s l = record {
  interfaces = s.3 ∙ l.interfaces;
  client = s.4 ∙ l.client;
  running = s.6 ∙ l.running;
  reply = s.5 ∙ l.reply;
}

pub process_pack-SameLocals :
    (p : Platform) (k : OdrPack) (hw : List ℕ) (i : ℤ) (n : Node)
    → Ensures (SameLocals n) (process_pack p k hw i n)
unfolding note_sender
process_pack-SameLocals p k hw i n =
    process_pack-kept p (SameLocals n) (SameTables-SameLocals n) k
      (λ u x l e new f h. record {
        interfaces = h.interfaces;
        client = h.client;
        running = h.running;
        reply = h.reply;
      })
      hw i n (record { interfaces = refl; client = refl; running = refl; reply = refl })
      (λ r. record { interfaces = refl; client = refl; running = refl; reply = refl })
