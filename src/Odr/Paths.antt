-- ===== src/Odr/Paths.antt =====
-- The paths that a discovery leaves: back to the node that asked, and on to the destination.
use odr.Prelude.{ℕ, ◌≡◌, ◌≢◌, ◌∙◌, List, none, subst}
use odr.Prelude.Int.{ℤ, pos}
use odr.Structs.{OdrPack, type_rreq, type_rrep}
use odr.Platform.{Platform, AddsLast}
use odr.Table.{get_index_from_ip}
use odr.Table.Valid.{InRange}
use odr.Table.Routes.{route}
use odr.Table.Senders.{update-new}
use odr.Link.Frames.{push_all, unicast}
use odr.Node.{Node}
use odr.Odr.Common.{is_self_dest, is_self_src}
use odr.Odr.Rreq.{dest_rrep}
use odr.Odr.Rrep.{request_data}
use odr.Odr.Valid.{IsValid}
use odr.Odr.Sends.{Sent, rreq_at_dest}
use odr.Odr.Answers.{rrep_completes}
use odr.Odr.{process_pack}

module _ (p : Platform) (last : AddsLast p) (k : OdrPack) (hw : List ℕ) (i : ℤ) (n : Node) where
  -- An unanswered RREQ within the hop limit at its destination, from a source to which no route
  -- is known, is answered by an RREP to the neighbour that the RREQ came from, in one frame for
  -- each entry of the interface that it came by in the list of interfaces, and nothing else is
  -- sent, where list_add adds last.
  pub reverse_path :
      k.type ≡ type_rreq
      → InRange k
      → k.rreq.rrep_sent ≢ pos 1
      → is_self_dest p k.dest_can_ip_str ≡ pos 1
      → route (get_index_from_ip p k.src_can_ip_str) n.rtbl ≡ none
      → Sent (process_pack p k hw i n) (push_all (unicast (dest_rrep k) hw i n.if_info_list) n.sent)
  reverse_path t r a s gone =
      let (e, f, out) = rreq_at_dest p k hw i n last t r a s in
      let via = update-new p last k hw i n.rtbl (get_index_from_ip p k.src_can_ip_str) e gone f in
      subst (Sent (process_pack p k hw i n)) (rw (via.0, via.1)) out

  -- The first RREP, within the hop limit, at the node that asked, when no route to the
  -- destination is known, makes the node send the client's request to the neighbour and through
  -- the interface that the RREP came by, and nothing else. The state is valid, and list_add adds
  -- last.
  pub forward_path :
      IsValid n
      → k.type ≡ type_rrep
      → InRange k
      → is_self_src p k.src_can_ip_str ≡ pos 1
      → n.route_discovered ≡ pos 0
      → route (get_index_from_ip p k.dest_can_ip_str) n.rtbl ≡ none
      → Sent
          (process_pack p k hw i n)
          (push_all (unicast (request_data k n) hw i n.if_info_list) n.sent)
  forward_path v t r a d gone =
      let (e, q, m, f, go, done, out) = rrep_completes p k hw i n last v t r a d in
      let via = update-new p last k hw i n.rtbl (get_index_from_ip p k.dest_can_ip_str) e gone f in
      rw go (out ∙ rw (via.0, via.1))
