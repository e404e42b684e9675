-- ===== src/Network/Discovery.antt =====
-- A whole discovery over any number of nodes: the request, the way of the RREQ, the answer of the
-- destination, the way of the RREP back, and the payload.
use odr.Prelude.{ℕ, ◌≤◌, ◌≡◌, refl, sym, ◌∙◌, subst, List, [], ◌∷◌, none, some, arith, length, inl}
use odr.Prelude.Int.{ℤ, pos, ◌+ℤ◌, ◌≤ℤ◌, zero_ne_one, int_laws}
use odr.Structs.{OdrPack, OdrReq, minus_one}
use odr.Platform.{Platform, AddsLast}
use odr.Table.{get_index_from_ip}
use odr.Table.Valid.{InRange}
use odr.Table.Routes.{route}
use odr.Link.Frames.{push_all, flood, unicast}
use odr.Node.{Node}
use odr.Odr.Common.{is_self_dest, is_self_src}
use odr.Odr.Rreq.{count_hop, dest_rrep}
use odr.Odr.Rrep.{request_data, relayed_rrep}
use odr.Odr.Safe.{Slot}
use odr.Odr.Valid.{IsValid}
use odr.Odr.Sends.{Sent}
use odr.Odr.Paths.{reverse_path, forward_path}
use odr.Odr.{process_pack}
use odr.Main.{get_can_ip, handle_request, rreq_packet}
use odr.Main.Request.{dest_key, request_unknown}
use odr.Main.Discovery.{question, request-undiscovered, request-interfaces, request-IsValid}
use odr.Network.Trail.{Relay, Way, Way-Trail}
use odr.Network.Reply.{back, Answers, Return, Trail-Return}

-- The RREQ behind the last node of the way.
abbrev pub far : OdrPack → List Relay → OdrPack
far k [] = k
far k (r ∷ rs) = far (count_hop k) rs

-- The RREP of the destination.
abbrev pub answer : OdrPack → List Relay → OdrPack
answer k rs = dest_rrep (far k rs)

-- What the nodes on the way leave alone in an RREQ, and its hop count.
pub record Forwarded (k q : OdrPack) (n : ℕ) : Type 0 where
  pub type : q.type ≡ k.type
  pub src : q.src_can_ip_str ≡ k.src_can_ip_str
  pub dest : q.dest_can_ip_str ≡ k.dest_can_ip_str
  pub unanswered : q.rreq.rrep_sent ≡ k.rreq.rrep_sent
  pub rrep : q.rrep.hop ≡ k.rrep.hop
  pub payload : q.payload ≡ k.payload
  pub hops : q.rreq.hop ≤ℤ k.rreq.hop +ℤ pos n

pub far-Forwarded : (k : OdrPack) (rs : List Relay) → Forwarded k (far k rs) (length rs)
unfolding count_hop
far-Forwarded k [] = record {
  type = refl;
  src = refl;
  dest = refl;
  unanswered = refl;
  rrep = refl;
  payload = refl;
  hops = omega int_laws;
}
far-Forwarded k (r ∷ rs) =
    let f = far-Forwarded (count_hop k) rs in
    record {
      type = f.type;
      src = f.src;
      dest = f.dest;
      unanswered = f.unanswered;
      rrep = f.rrep;
      payload = f.payload;
      hops = (let h = f.hops in omega int_laws);
    }

-- And in an RREP.
pub record Returned (a q : OdrPack) (n : ℕ) : Type 0 where
  pub type : q.type ≡ a.type
  pub src : q.src_can_ip_str ≡ a.src_can_ip_str
  pub dest : q.dest_can_ip_str ≡ a.dest_can_ip_str
  pub rreq : q.rreq.hop ≡ a.rreq.hop
  pub payload : q.payload ≡ a.payload
  pub hops : q.rrep.hop ≤ℤ a.rrep.hop +ℤ pos n

pub back-Returned : (a : OdrPack) (rs : List Relay) → Returned a (back rs a) (length rs)
unfolding relayed_rrep
back-Returned a [] = record {
  type = refl;
  src = refl;
  dest = refl;
  rreq = refl;
  payload = refl;
  hops = omega int_laws;
}
back-Returned a (r ∷ rs) =
    let f = back-Returned a rs in
    record {
      type = f.type;
      src = f.src;
      dest = f.dest;
      rreq = f.rreq;
      payload = f.payload;
      hops = (let h = f.hops in omega int_laws);
    }

-- Both stay within the hop limit.
pub hops-InRange :
    (here : Platform) (addr : List ℕ) (r : OdrReq) (a : Node) (rs : List Relay)
    → length rs ≤ 14
    → InRange (far (question here addr r a) rs)
      × InRange (back rs (answer (question here addr r a) rs))
unfolding rreq_packet dest_rrep
hops-InRange here addr r a rs short =
    let k = question here addr r a in
    let f = far-Forwarded k rs in
    let g = back-Returned (answer k rs) rs in
    let there_hops = f.hops in
    let here_hops = g.hops in
    let rreq : (far k rs).rreq.hop ≤ℤ pos 15 = omega int_laws in
    ((rreq, rw f.rrep (omega arith)), (rw g.rreq rreq, omega int_laws))

module _ (here there : Platform) (last : AddsLast here) (last' : AddsLast there) (addr : List ℕ)
    (r : OdrReq) (a b : Node) (rs : List Relay) where
  abbrev pub rreq : OdrPack
  rreq = question here addr r a

  -- A whole discovery over any number of nodes, up to 14: a request of the client at one node
  -- floods an RREQ; the destination, behind the nodes on the way, answers what arrives by an RREP
  -- to the neighbour and the interface that it came by; each node on the way sends the RREP on to
  -- where it heard the RREQ; and what arrives at the first node makes it send the client's
  -- request by the neighbour that brought it. The nodes on the way are as for an RREQ and for its
  -- RREP that each of them sends on, the first node has a valid state and a slot of its own,
  -- neither end knows a route to the other, the two recognize their addresses, and list_add adds
  -- last.
  pub discovery :
      (hw hw' : List ℕ) (i i' : ℤ) (w : Way rreq rs)
      → length rs ≤ 14
      → IsValid a
      → Slot (get_index_from_ip here (get_can_ip here))
      → route (dest_key here addr r a) a.rtbl ≡ none
      → route (get_index_from_ip here rreq.dest_can_ip_str) a.rtbl ≡ none
      → route (get_index_from_ip there rreq.src_can_ip_str) b.rtbl ≡ none
      → is_self_src here rreq.src_can_ip_str ≡ pos 1
      → is_self_dest there rreq.dest_can_ip_str ≡ pos 1
      → Answers rreq rs (answer rreq rs)
      → (m : Node) × (handle_request here addr r a ≡ some m)
        × (m.sent ≡ push_all (flood rreq minus_one a.if_info_list) a.sent)
        × Sent
            (process_pack there (far rreq rs) hw i b)
            (push_all (unicast (answer rreq rs) hw i b.if_info_list) b.sent)
        × Return rreq rreq.rreq.hop rs (Way-Trail rreq rs w) (answer rreq rs)
        × Sent (process_pack here (back rs (answer rreq rs)) hw' i' m) (
            push_all
              (unicast (request_data (back rs (answer rreq rs)) m) hw' i' a.if_info_list)
              m.sent)
  unfolding rreq_packet dest_rrep
  discovery hw hw' i i' w short v s gone gone' new src dest answers =
      let (m, e, out, _, _, table) = request_unknown here addr r a v s (inl gone) in
      let f = far-Forwarded rreq rs in
      let g = back-Returned (answer rreq rs) rs in
      let (over, under) = hops-InRange here addr r a rs short in
      (
        m,
        e,
        out,
        reverse_path there last' (far rreq rs) hw i b f.type over
            (λ q. zero_ne_one (sym f.unanswered ∙ q)) (rw f.dest dest) (rw f.src new),
        Trail-Return rreq rreq.rreq.hop rs (Way-Trail rreq rs w) (answer rreq rs) answers,
        subst
            (λ fs.
              Sent (process_pack here (back rs (answer rreq rs)) hw' i' m)
                (push_all (unicast (request_data (back rs (answer rreq rs)) m) hw' i' fs) m.sent))
            (request-interfaces here addr r a m e)
            (forward_path here last (back rs (answer rreq rs)) hw' i' m
              (request-IsValid here addr r a m e v s) g.type under (rw (g.src, f.src) src)
              (request-undiscovered here addr r a m e) (rw (table, g.dest, f.dest) gone')),
      )
