-- ===== src/Main.antt =====
-- `main` of odr_aa19.c: its start, the request of a client, and the loop.
pub mod Request
pub mod Induction
pub mod Loop
pub mod Routes
pub mod Discovery
pub mod Ends
pub mod Asks
pub mod Once
pub mod Slots
pub mod Silent
pub mod Floods
pub mod Clients
pub mod Refines
pub mod Forced
pub mod Program
use odr.Prelude.{ℕ, ◌&&◌, List, [], ◌∷◌, ◌++◌, Option, none, some, set, ◌==◌, if◌then◌else◌}
use odr.Prelude.Int.{ℤ, pos, ◌+ℤ◌, ◌==ℤ◌}
use odr.Structs.{OdrPack, OdrReq, IfInfo, type_rreq, type_data, server_port_number, minus_one}
use odr.CString.{strncpy, c_string, bytes}
use odr.Platform.{Platform}
use odr.Table.{entry_exists_for_src, get_index_from_ip}
use odr.Node.{Node, latest_put}
use odr.Link.{broadcast_ll_msg, send_payload}
use odr.Odr.Common.{after_send}
use odr.Odr.{process_pack}

-- The `while` loop that cuts the port off: the first colon becomes a NUL.
unfoldable pub cut_at_colon : List ℕ → List ℕ
cut_at_colon [] = []
cut_at_colon (c ∷ cs) = if c == b':' then 0 ∷ cs else c ∷ cut_at_colon cs

-- The loops that fill an address of the packet: 14 bytes and a NUL.
unfoldable pub packet_ip : List ℕ → List ℕ
packet_ip ip = bytes 14 ip ++ 0 ∷ []

-- The state before the loop. The locals and buffers that main does not set are arguments.
unfoldable pub start : ℤ → List IfInfo → OdrPack → List ℕ → List ℕ → List ℕ → Node
start sp ifs packet msg reply addr = record {
  rtbl = record { entries = []; sp = sp; reads = 0 };
  if_info_list = ifs;
  latest_rreq =
      pos 0 ∷ pos 0 ∷ pos 0 ∷ pos 0 ∷ pos 0 ∷ pos 0 ∷ pos 0 ∷ pos 0 ∷ pos 0 ∷ pos 0 ∷ pos 0 ∷ [];
  running_broadcast_no = pos 1;
  forced_discovery = pos 0;
  route_discovered = pos 0;
  msg = msg;
  server_time_reply = reply;
  al_client_addr = addr;
  server_port = server_port_number;
  source_packet = packet;
  sent = [];
}

-- What one round of the loop reads: a frame, and a datagram of the client or an error.
pub record FrameIn : Type 0 where
  pub packet : OdrPack
  pub h_source : List ℕ
  pub sll_ifindex : ℤ

pub data Datagram : Type 0 where
  request : List ℕ → OdrReq → Datagram
  recv_error : Datagram

pub record Round : Type 0 where
  pub frame : Option FrameIn
  pub datagram : Option Datagram

-- The loop goes on, `goto err`, or an access out of bounds.
pub data Progress : Type 0 where
  running : Node → Progress
  failed : Node → Progress
  fault : Progress

-- The state after the request was read.
unfoldable pub read_request : List ℕ → OdrReq → Node → Node
read_request addr r n = record n {
  route_discovered = pos 0;
  al_client_addr = addr;
  msg = strncpy n.msg r.msg 32;
  forced_discovery = r.forced_discovery;
}

-- The payload that goes out at once, when the table has an entry.
unfoldable pub payload_packet : OdrPack → OdrPack
payload_packet k = record k { type = type_data; src_dest = pos 1 }

-- The RREQ of a discovery, on a packet whose addresses are filled in.
unfoldable pub rreq_packet : ℤ → OdrPack → OdrPack
rreq_packet id k = record k {
  type = type_rreq;
  rreq = record { hop = pos 1; broadcast_id = id; force_discovery = pos 0; rrep_sent = pos 0 };
  rrep = record { hop = minus_one; broadcast_id = minus_one; force_discovery = minus_one };
}

module _ (p : Platform) where
  -- get_can_ip of odr.h, into an array of 15 bytes.
  unfoldable pub get_can_ip : List ℕ
  get_can_ip =
      let hostname : List ℕ = elim p.gethostname [ some h ↦ h | none ↦ p.stack_bytes ] in
      set (strncpy p.heap_bytes (p.inet_ntoa (p.gethostbyname hostname)) 15) 14 0

  -- The request's destination as a text.
  unfoldable pub request_dest : Node → List ℕ
  request_dest n = cut_at_colon (p.sock_ntop (c_string n.msg))

  -- `source_packet` with its addresses. It keeps what it holds of an earlier request.
  unfoldable pub addressed : Node → OdrPack
  addressed n = record (n.source_packet) {
    dest_can_ip_str = packet_ip (request_dest n);
    src_can_ip_str = packet_ip get_can_ip;
    type = type_rreq;
  }

  -- From `source_packet.type = TYPE_RREQ` to the write of `latest_rreq`.
  unfoldable pub next_rreq : OdrPack → Node → Option Node
  next_rreq k n =
      let id = n.running_broadcast_no +ℤ pos 1 in
      elim (latest_put (get_index_from_ip p get_can_ip) id n.latest_rreq) [
        | none ↦ none
        | some l ↦ some (record n {
          source_packet = rreq_packet n.running_broadcast_no k;
          running_broadcast_no = id;
          latest_rreq = l;
        })
      ]

  -- The branch of a client's request; `none` is an access out of bounds.
  unfoldable pub handle_request : List ℕ → OdrReq → Node → Option Node
  handle_request addr r n =
      let n' = read_request addr r n in
      let k = addressed n' in
      let dest_key = get_index_from_ip p (request_dest n') in
      if entry_exists_for_src dest_key n'.rtbl.entries && n'.forced_discovery ==ℤ pos 0
      then next_rreq (payload_packet k)
          (after_send n'
            (send_payload p n'.if_info_list n'.rtbl.entries (payload_packet k) dest_key n'.sent)).1
      else (elim (next_rreq k n') [
        | none ↦ none
        | some m ↦
            some
              (after_send m (broadcast_ll_msg p m.if_info_list m.source_packet minus_one m.sent)).1
      ])

  unfoldable pub on_frame : Option FrameIn → Node → Progress
  on_frame none n = running n
  on_frame (some f) n = elim (process_pack p f.packet f.h_source f.sll_ifindex n) [
    | none ↦ fault
    | some (ret, n') ↦ if ret ==ℤ minus_one then failed n' else running n'
  ]

  unfoldable pub on_datagram : Option Datagram → Node → Progress
  on_datagram none n = running n
  on_datagram (some recv_error) n = failed n
  on_datagram (some (request addr r)) n = elim (handle_request addr r n) [
    | none ↦ fault
    | some n' ↦ running n'
  ]

  -- One round of the loop: the frame comes first.
  unfoldable pub round : Round → Node → Progress
  round r n = elim (on_frame r.frame n) [
    | running n' ↦ on_datagram r.datagram n'
    | failed n' ↦ failed n'
    | fault ↦ fault
  ]

  -- The loop over the rounds that the world brings.
  unfoldable pub loop : List Round → Node → Progress
  loop [] n = running n
  loop (r ∷ rs) n = elim (round r n) [
    | running n' ↦ loop rs n'
    | failed n' ↦ failed n'
    | fault ↦ fault
  ]
