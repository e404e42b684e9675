-- ===== src/Odr/Frame.antt =====
-- What the handlers leave alone: the routing table changes in `note_sender` only, and the latest
-- broadcast ids only when an RREQ is relayed; the interfaces, the client's address and the running number
-- never.
use odr.Prelude.{◌≡◌, refl, arith, length, take, [], ◌∷◌, Option-cases, inl, inr}
use odr.Prelude.Int.{ℤ}
use odr.Structs.{OdrPack, to_server}
use odr.CString.Laws.{length-memcpy}
use odr.Platform.{Platform}
use odr.Node.{Node}
use odr.Odr.Rreq.{answer_rreq, answer_for_dest, forward_rreq, count_hop}
use odr.Odr.Rrep.{finish_discovery, relay_rrep}
use odr.Odr.Data.{deliver_reply, ask_server, relay_towards, relay_data, send_local}

-- The parts of the state that a send cannot change.
abbrev pub SameTables : Node → Node → Type 0
SameTables n m =
    (m.rtbl ≡ n.rtbl)
    × (m.latest_rreq ≡ n.latest_rreq)
    × (m.source_packet ≡ n.source_packet)
    × (m.if_info_list ≡ n.if_info_list)
    × (m.al_client_addr ≡ n.al_client_addr)
    × (length m.server_time_reply ≡ length n.server_time_reply)
    × (m.running_broadcast_no ≡ n.running_broadcast_no)

module _ (p : Platform) where
  pub answer_rreq-keeps : (k : OdrPack) (n : Node) → SameTables n (answer_rreq p k n).1
  unfolding answer_rreq
  answer_rreq-keeps k n = ground arith

  answer_for_dest-keeps : (k : OdrPack) (n : Node) → SameTables n (answer_for_dest p k n).1
  unfolding answer_for_dest
  answer_for_dest-keeps k n = ground arith

  pub forward_rreq-keeps : (k : OdrPack) (i : ℤ) (n : Node) → SameTables n (forward_rreq p k i n).1
  unfolding forward_rreq
  forward_rreq-keeps k i n = ground (arith, answer_for_dest-keeps (count_hop k) n)

  pub finish_discovery-keeps :
      (r : ℤ) (k : OdrPack) (n : Node) → SameTables n (finish_discovery p r k n).1
  unfolding finish_discovery
  finish_discovery-keeps r k n = ground arith

  pub relay_rrep-keeps : (r : ℤ) (k : OdrPack) (n : Node) → SameTables n (relay_rrep p r k n).1
  unfolding relay_rrep
  relay_rrep-keeps r k n = ground arith

  pub deliver_reply-keeps : (k : OdrPack) (n : Node) → SameTables n (deliver_reply p k n).1
  unfolding deliver_reply send_local
  deliver_reply-keeps k n = (refl, refl, refl, refl, refl, refl, refl)

  pub ask_server-keeps : (k : OdrPack) (n : Node) → SameTables n (ask_server p k n).1
  unfolding ask_server send_local
  ask_server-keeps k n =
      elim (Option-cases (p.server_answer (to_server (b't' ∷ b't' ∷ []) ∷ n.sent))) [
        | inl late ↦ rw (late, ask_server) (refl, refl, refl, refl, refl, refl, refl)
        | inr (answer, e) ↦
            rw (e, ask_server)
              (
                refl,
                refl,
                refl,
                refl,
                refl,
                length-memcpy n.server_time_reply (take 32 answer),
                refl,
              )
      ]

  pub relay_data-keeps : (k : OdrPack) (n : Node) → SameTables n (relay_data p k n).1
  unfolding relay_data relay_towards
  relay_data-keeps k n = ground arith
