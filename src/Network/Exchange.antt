-- ===== src/Network/Exchange.antt =====
-- A whole exchange between a client and a server with any number of nodes between them: the request, the discovery, the
-- payload, the answer of the server, the reply, and what the client prints.
use odr.Prelude.{sym, ap, ◌≤◌, ℕ, ◌≡◌, ◌∙◌, refl, subst, List, [], ◌∷◌, none, some, length, take}
use odr.Prelude.Int.{ℤ, pos, zero_ne_one}
use odr.Structs.{OdrPack, OdrReq, OdrReply, Out, to_client, to_server, minus_one}
use odr.CString.{c_string, bytes, memcpy}
use odr.CString.Laws.{length-strncpy}
use odr.Platform.{Platform, AddsLast}
use odr.Table.{get_index_from_ip}
use odr.Table.Routes.{route}
use odr.Link.Frames.{push_all, flood, unicast}
use odr.Node.{Node}
use odr.Odr.Common.{is_self_dest, is_self_src}
use odr.Odr.Rreq.{dest_rrep}
use odr.Odr.Rrep.{request_data}
use odr.Odr.Data.{reply_data}
use odr.Odr.Locals.{SameLocals, process_pack-SameLocals}
use odr.Odr.Safe.{Slot}
use odr.Odr.Valid.{IsValid, process_pack-IsValid}
use odr.Odr.Sends.{Sent}
use odr.Odr.Payloads.{data_delivered}
use odr.Odr.Return.{dest-HasVia, answer_returns}
use odr.Odr.{process_pack}
use odr.Main.{get_can_ip, handle_request, rreq_packet, addressed, read_request}
use odr.Main.Request.{dest_key}
use odr.Main.Discovery.{question}
use odr.Main.Asks.{handle_request-client}
use odr.Odr.Runs.{Runs, Sent-Runs, Runs-Ensures}
use odr.Network.Trail.{Relay, Way, Way-Trail}
use odr.Network.Reply.{back, Answers}
use odr.Network.Discovery.{far, answer, far-Forwarded, back-Returned, hops-InRange, discovery}
use odr.Network.Serve.{Serves, Betweens, Trail-Serves}
use odr.Client.{msg_recv, shown, time_str}
use odr.Client.Texts.{time_text, time-text}

module _ (here there : Platform) (addr : List ℕ) (r : OdrReq) (hw hw' : List ℕ) (i i' : ℤ)
    (a b : Node) (rs : List Relay) where
  -- The RREQ, its answer, the payload with the request, and the one with the server's text.
  abbrev pub rreq : OdrPack
  rreq = question here addr r a

  abbrev pub rrep : OdrPack
  rrep = back rs (answer rreq rs)

  abbrev pub payload : Node → OdrPack
  payload m = request_data rrep m

  abbrev pub reply : Node → Node → List ℕ → OdrPack
  reply m n text = reply_data (payload m) (memcpy n.server_time_reply (take 32 text))

  -- What the client is sent.
  abbrev pub datagram : Node → Node → Node → List ℕ → OdrReply
  datagram m n o text = record {
    time = bytes 32 (reply m n text).payload;
    ip = bytes 15 (reply m n text).dest_can_ip_str;
    port = o.server_port;
  }

  -- Every message of the exchange is handled, and sets off the next one; the frames go to and fro between
  -- the two nodes.
  pub record Exchange (w : Way rreq rs) (text : List ℕ) : Type 0 where
    pub asked : Node
    pub request : handle_request here addr r a ≡ some asked
    pub asks : asked.sent ≡ push_all (flood rreq minus_one a.if_info_list) a.sent
    pub answers :
        Runs
          (process_pack there (far rreq rs) hw i b)
          (push_all (unicast (answer rreq rs) hw i b.if_info_list) b.sent)
    pub proceeds :
        Runs
          (process_pack here rrep hw' i' asked)
          (push_all (unicast (payload asked) hw' i' a.if_info_list) asked.sent)
    pub replies : Runs (process_pack there (payload asked) hw i answers.after) (
        push_all
          (unicast (reply asked answers.after text) hw i b.if_info_list)
          (to_server (b't' ∷ b't' ∷ []) ∷ answers.after.sent))
    pub delivers :
        Runs
          (process_pack here (reply asked answers.after text) hw' i' proceeds.after)
          (to_client addr (datagram asked answers.after proceeds.after text) ∷ proceeds.after.sent)
    pub serves :
        Serves rreq rreq.rreq.hop rs
          (Way-Trail rreq rs w)
          (answer rreq rs)
          (payload asked)
          (reply asked answers.after text)

  module _ (last : AddsLast here) (last' : AddsLast there) (w : Way rreq rs) where
    exchange :
        (text : List ℕ)
        → length rs ≤ 14
        → IsValid a
        → IsValid b
        → Slot (get_index_from_ip here (get_can_ip here))
        → route (dest_key here addr r a) a.rtbl ≡ none
        → route (get_index_from_ip here rreq.dest_can_ip_str) a.rtbl ≡ none
        → route (get_index_from_ip there rreq.src_can_ip_str) b.rtbl ≡ none
        → is_self_src here rreq.src_can_ip_str ≡ pos 1
        → is_self_src there rreq.src_can_ip_str ≡ pos 0
        → is_self_dest there rreq.dest_can_ip_str ≡ pos 1
        → Answers rreq rs (answer rreq rs)
        → Betweens (answer rreq rs) rs
        → ((s : List Out) → there.server_answer s ≡ some text)
        → Exchange w text
    unfolding rreq_packet request_data dest_rrep reply_data
    exchange text short v v' slot gone gone' new src away dest path ends server =
        let (m, e, out, on, _, back_again) =
          discovery here there last last' addr r a b rs hw hw' i i' w short v slot gone gone' new
            src dest path in
        let k = far rreq rs in
        let x = Sent-Runs (process_pack there k hw i b) _ on in
        let y = Sent-Runs (process_pack here rrep hw' i' m) _ back_again in
        let valid =
          Runs-Ensures IsValid (process_pack there k hw i b) _ x
            (process_pack-IsValid there last' k hw i b v') in
        let locals =
          Runs-Ensures (SameLocals b) (process_pack there k hw i b) _ x
            (process_pack-SameLocals there k hw i b) in
        let locals' =
          Runs-Ensures (SameLocals m) (process_pack here rrep hw' i' m) _ y
            (process_pack-SameLocals here rrep hw' i' m) in
        let f = far-Forwarded rreq rs in
        let g = back-Returned (answer rreq rs) rs in
        let (over, under) = hops-InRange here addr r a rs short in
        let way = Runs-Ensures _ (process_pack there k hw i b) _ x (
          dest-HasVia there last' k hw i b f.type over (λ q. zero_ne_one (sym f.unanswered ∙ q))
            (rw f.dest dest) (rw f.src new)) in
        record {
          asked = m;
          request = e;
          asks = out;
          answers = x;
          proceeds = y;
          replies = Sent-Runs (process_pack there (payload m) hw i x.after) _ (
              subst
                (λ fs. Sent (process_pack there (payload m) hw i x.after) (
                  push_all (unicast (reply m x.after text) hw i fs)
                    (to_server (b't' ∷ b't' ∷ []) ∷ x.after.sent)))
                locals.interfaces
                (answer_returns there last' (payload m) hw i x.after text valid refl under
                  (rw (g.src, f.src) away) (rw (g.dest, f.dest) dest) server (rw g.src way)));
          delivers = Sent-Runs (process_pack here (reply m x.after text) hw' i' y.after) _ (
              subst
                (λ c.
                  Sent (process_pack here (reply m x.after text) hw' i' y.after)
                    (to_client c (datagram m x.after y.after text) ∷ y.after.sent))
                (locals'.client ∙ handle_request-client here addr r a m e)
                (data_delivered here (reply m x.after text) hw' i' y.after refl under
                  (rw (g.src, f.src) src)));
          serves =
              Trail-Serves rreq rreq.rreq.hop rs (Way-Trail rreq rs w) (answer rreq rs) (payload m)
                (reply m x.after text) path f.dest ends
                (record {
                  is_data = refl;
                  src = g.src;
                  dest = g.dest;
                  in_range = under;
                  way = refl;
                })
                (record {
                  is_data = refl;
                  src = g.src;
                  dest = g.dest;
                  in_range = under;
                  way = refl;
                });
        }

    -- The whole of the program, over any number of nodes, up to 14, between a client and a
    -- server: the client's request floods an RREQ, which each node on the way sends on; the node
    -- of the server answers by an RREP, which goes back the same way; that sends the client's
    -- request, which each node on the way sends on towards the server; its node asks the server
    -- and sends the time back, by each node on the way; the first node hands it to the client;
    -- and what the client prints is the first 24 bytes of the server's ctime and a line end. The
    -- nodes on the way are as for an RREQ and for its RREP that each of them sends on, and are
    -- neither of the two ends, the states of the ends are valid, neither end knows a route to the
    -- other, the first has a slot of its own, they recognize their own addresses only, list_add
    -- adds last, the server is in time, and the buffers have the sizes that are declared.
    pub time_arrives :
        (old ctime msg ip : List ℕ) (ret : ℤ)
        → length old ≡ 32
        → length msg ≡ 32
        → length b.server_time_reply ≡ 32
        → length a.source_packet.payload ≡ 64
        → length rs ≤ 14
        → IsValid a
        → IsValid b
        → Slot (get_index_from_ip here (get_can_ip here))
        → route (dest_key here addr r a) a.rtbl ≡ none
        → route (get_index_from_ip here rreq.dest_can_ip_str) a.rtbl ≡ none
        → route (get_index_from_ip there rreq.src_can_ip_str) b.rtbl ≡ none
        → is_self_src here rreq.src_can_ip_str ≡ pos 1
        → is_self_src there rreq.src_can_ip_str ≡ pos 0
        → is_self_dest there rreq.dest_can_ip_str ≡ pos 1
        → Answers rreq rs (answer rreq rs)
        → Betweens (answer rreq rs) rs
        → ((s : List Out) → there.server_answer s ≡ some (time_str old ctime))
        → let text = time_str old ctime in
          (x : Exchange w text) × (c_string
              (shown
                (msg_recv ret
                  (datagram x.asked x.answers.after x.proceeds.after text)
                  msg
                  ip).1).time
            ≡ time_text ctime)
    unfolding request_data dest_rrep rreq_packet addressed read_request
    time_arrives old ctime msg ip ret ho hm hb hp short v v' slot gone gone' new src away dest path
          ends server =
        let x =
          exchange (time_str old ctime) short v v' slot gone gone' new src away dest path ends
            server in
        let locals =
          Runs-Ensures (SameLocals b) (process_pack there (far rreq rs) hw i b) _ x.answers
            (process_pack-SameLocals there (far rreq rs) hw i b) in
        (
          x,
          time-text old ctime x.answers.after.server_time_reply msg ip (payload x.asked) ret
              (datagram x.asked x.answers.after x.proceeds.after (time_str old ctime)) ho
              (locals.reply ∙ hb)
              (length-strncpy rrep.payload x.asked.msg 32
                ∙ ap length
                    ((back-Returned (answer rreq rs) rs).payload ∙ (far-Forwarded rreq rs).payload)
                ∙ hp)
              hm refl,
        )
