-- ===== src/Main/Discovery.antt =====
-- A discovery between two nodes on one link: the request, the RREQ, the RREP, and the payload.
use odr.Prelude.{ℕ, ◌≡◌, ◌∙◌, sym, refl, subst, List, none, some, arith, inl}
use odr.Prelude.Int.{ℤ, pos, zero_ne_one}
use odr.Structs.{OdrPack, OdrReq, minus_one}
use odr.Platform.{Platform, AddsLast}
use odr.Table.{get_index_from_ip}
use odr.Table.Routes.{route}
use odr.Link.Frames.{push_all, flood, unicast}
use odr.Node.{Node}
use odr.Odr.Common.{is_self_dest, is_self_src}
use odr.Odr.Rreq.{dest_rrep}
use odr.Odr.Rrep.{request_data}
use odr.Odr.Safe.{Slot}
use odr.Odr.Valid.{IsValid}
use odr.Odr.Sends.{Sent}
use odr.Odr.Paths.{reverse_path, forward_path}
use odr.Odr.{process_pack}
use odr.Main.{get_can_ip, handle_request, read_request, next_rreq, rreq_packet}
use odr.Main.Request.{packet, dest_key, request_unknown, handle_request-IsValid}

module _ (p : Platform) (addr : List ℕ) (r : OdrReq) (n m : Node)
    (h : handle_request p addr r n ≡ some m) where
  -- After a request no route of its discovery has been found, and the interfaces are the same.
  pub request-undiscovered : m.route_discovered ≡ pos 0
  unfolding handle_request read_request next_rreq
  request-undiscovered = ground arith

  pub request-interfaces : m.if_info_list ≡ n.if_info_list
  unfolding handle_request read_request next_rreq
  request-interfaces = ground arith

  -- The array for the server's reply stays.
  request-reply : m.server_time_reply ≡ n.server_time_reply
  unfolding handle_request read_request next_rreq
  request-reply = ground arith

  pub request-IsValid : IsValid n → Slot (get_index_from_ip p (get_can_ip p)) → IsValid m
  request-IsValid v s =
      let (l, e, w) = handle_request-IsValid p addr r n v s in
      let same : l ≡ m = (let q : some l ≡ some m = sym e ∙ h in cc) in subst IsValid same w

-- The RREQ of a request.
abbrev pub question : Platform → List ℕ → OdrReq → Node → OdrPack
question here addr r a = rreq_packet a.running_broadcast_no (packet here addr r a)

module _ (here there : Platform) (last : AddsLast here) (last' : AddsLast there) (addr : List ℕ)
    (r : OdrReq) (a b : Node) where
  -- A discovery between two nodes on one link: a request of the client at one node, without a
  -- route to the other, floods an RREQ; the other node, its destination, without a route back,
  -- answers it by an RREP to the neighbour and the interface that the RREQ came by; and on that
  -- RREP the first node sends the client's request to the neighbour and the interface that the
  -- RREP came by. The first node has a valid state and a slot of its own, the two recognize their
  -- addresses, and list_add adds last.
  neighbour_discovery :
      (hw hw' : List ℕ) (i i' : ℤ)
      → IsValid a
      → Slot (get_index_from_ip here (get_can_ip here))
      → route (dest_key here addr r a) a.rtbl ≡ none
      → route (get_index_from_ip here (question here addr r a).dest_can_ip_str) a.rtbl ≡ none
      → route (get_index_from_ip there (question here addr r a).src_can_ip_str) b.rtbl ≡ none
      → is_self_src here (question here addr r a).src_can_ip_str ≡ pos 1
      → is_self_dest there (question here addr r a).dest_can_ip_str ≡ pos 1
      → (m : Node) × (handle_request here addr r a ≡ some m)
        × (m.sent ≡ push_all (flood (question here addr r a) minus_one a.if_info_list) a.sent)
        × Sent
            (process_pack there (question here addr r a) hw i b)
            (push_all (unicast (dest_rrep (question here addr r a)) hw i b.if_info_list) b.sent)
        × Sent (process_pack here (dest_rrep (question here addr r a)) hw' i' m) (
            push_all
              (unicast (request_data (dest_rrep (question here addr r a)) m) hw' i' a.if_info_list)
              m.sent)
  unfolding rreq_packet dest_rrep
  neighbour_discovery hw hw' i i' v s gone gone' new src dest =
      let (m, e, out, _, _, table) = request_unknown here addr r a v s (inl gone) in
      (
        m,
        e,
        out,
        reverse_path there last' (question here addr r a) hw i b refl (omega arith, omega arith)
            zero_ne_one dest new,
        subst
            (λ fs. Sent (process_pack here (dest_rrep (question here addr r a)) hw' i' m) (
              push_all (unicast (request_data (dest_rrep (question here addr r a)) m) hw' i' fs)
                m.sent))
            (request-interfaces here addr r a m e)
            (forward_path here last (dest_rrep (question here addr r a)) hw' i' m
              (request-IsValid here addr r a m e v s) refl (omega arith, omega arith) src
              (request-undiscovered here addr r a m e) (rw table gone')),
      )
