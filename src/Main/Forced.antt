-- ===== src/Main/Forced.antt =====
-- A client's request under forced discovery, and a node on the way that knows the destination.
use odr.Prelude.{ℕ, ◌≡◌, ◌≢◌, ◌∙◌, refl, sym, List, some, inr}
use odr.Prelude.Int.{ℤ, pos, zero_ne_one}
use odr.Structs.{OdrPack, OdrReq, Entry, minus_one}
use odr.Platform.{Platform}
use odr.Table.{get_index_from_ip}
use odr.Table.Routes.{route}
use odr.Link.Frames.{push_all, flood, unicast}
use odr.Node.{Node}
use odr.Odr.Rreq.{count_hop, known_rrep, answered_rreq}
use odr.Odr.Safe.{Slot}
use odr.Odr.Sends.{Sent, Fresh, noted, rreq_answered}
use odr.Odr.Valid.{IsValid}
use odr.Odr.{process_pack}
use odr.Main.{get_can_ip, handle_request, rreq_packet}
use odr.Main.Discovery.{question}
use odr.Main.Request.{request_unknown}

module _ (here there : Platform) (addr : List ℕ) (r : OdrReq) (a b : Node) (hw : List ℕ) (i : ℤ)
    (e : Entry) where
  abbrev rreq : OdrPack
  rreq = question here addr r a

  abbrev rrep : OdrPack
  rrep = known_rrep (count_hop rreq) e.hop

  -- Forced discovery ends at the node that asks: the RREQ of a forced request goes out without a
  -- mark of it, and a node to which it is new, which has an entry for the destination and whose
  -- own last request was not a forced one, answers it from its table, by an RREP to the next hop
  -- of that entry; then the RREQ, marked as answered, goes out through every interface. The first
  -- node has a valid state and a slot of its own.
  pub forced_answered :
      IsValid a
      → Slot (get_index_from_ip here (get_can_ip here))
      → r.forced_discovery ≡ pos 1
      → Fresh there rreq b
      → route (get_index_from_ip there rreq.dest_can_ip_str) (noted there rreq hw i b) ≡ some e
      → b.forced_discovery ≢ pos 1
      → (rreq.rreq.force_discovery ≡ pos 0)
        × ((m : Node) × (handle_request here addr r a ≡ some m)
            × (m.sent ≡ push_all (flood rreq minus_one a.if_info_list) a.sent))
        × Sent (process_pack there rreq hw i b) (
            push_all
              (flood (answered_rreq rrep) minus_one b.if_info_list)
              (push_all (unicast rrep e.next_hop_hwaddr e.if_no b.if_info_list) b.sent))
  unfolding rreq_packet
  forced_answered v slot forced fresh known unforced =
      let (m, go, out, _, _, _) =
        request_unknown here addr r a v slot (inr (λ q. zero_ne_one (sym q ∙ forced))) in
      (refl, (m, go, out), rreq_answered there rreq hw i b e fresh known unforced)
