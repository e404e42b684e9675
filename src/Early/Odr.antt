-- ===== src/Early/Odr.antt =====
-- odr.c: a process that sends one broadcast for each message of a client. It has a `struct odr_pack` of its
-- own, with two addresses of the link layer.
use odr.Prelude.{ℕ, List, [], ◌∷◌, Option, none, some, length, if◌then◌else◌}
use odr.Prelude.Int.{ℤ, pos, leb_ℤ, ◌==ℤ◌}
use odr.Structs.{RreqHdr, type_rreq, eth_p_aa19, minus_one}
use odr.CString.{strncpy, memcpy, c_string}
use odr.Hwaddrs.{Ifreq, HwaInfo, is_routed, get_hw_addrs_or_quit}

-- The fields of struct if_info that odr.c writes; sll_family, sll_protocol and sll_halen are constants.
pub record IfInfo : Type 0 where
  pub sll_addr : List ℕ
  pub sll_ifindex : ℤ
  pub ip_addr : List ℕ
  pub if_name : List ℕ
  pub ll_sockfd : ℤ

-- The fields of the packet that odr.c writes.
pub record Packet : Type 0 where
  pub type : ℤ
  pub dest_mac : List ℕ
  pub src_mac : List ℕ
  pub rreq : RreqHdr
  pub payload : List ℕ

pub record Frame : Type 0 where
  pub h_dest : List ℕ
  pub h_source : List ℕ
  pub h_proto : ℕ
  pub packet : Packet
  pub sll_ifindex : ℤ

abbrev pub broadcast_addr : List ℕ
broadcast_addr = 255 ∷ 255 ∷ 255 ∷ 255 ∷ 255 ∷ 255 ∷ []

-- The 18 bytes of "this is broadcast\n".
abbrev pub msg_str : List ℕ
msg_str =
    b't' ∷ b'h' ∷ b'i' ∷ b's' ∷ b' ' ∷ b'i' ∷ b's' ∷ b' ' ∷ b'b' ∷ b'r' ∷ b'o' ∷ b'a' ∷ b'd' ∷ b'c'
    ∷ b'a' ∷ b's' ∷ b't' ∷ 10 ∷ []

-- What a call of malloc leaves in a packet's payload and in a name, sendto, setsockopt, and list_add.
pub record System : Type 0 where
  pub garbage : List ℕ
  pub name_garbage : List ℕ
  pub sendto : List Frame → Frame → ℤ
  pub setsockopt : List ℕ → ℤ
  pub list_add : IfInfo → List IfInfo → List IfInfo

-- What main keeps: the payload in its buffer, the texts that it printed and the frames that it sent, newest
-- first.
pub record Process : Type 0 where
  pub if_info_list : List IfInfo
  pub buffer : List ℕ
  pub printed : List (List ℕ)
  pub sent : List Frame

-- What select reports in a round: the payload of a frame, or an error that is not noticed; then a message
-- of a client, or an error.
pub data Recv : Type 0 where
  recv_error : Recv
  received : List ℕ → Recv

pub record Round : Type 0 where
  pub frame : Option Recv
  pub datagram : Option Recv

pub data Progress : Type 0 where
  running : Process → Progress
  err : Process → Progress

module _ (y : System) where
  unfoldable pub broadcast_frame : IfInfo → Frame
  broadcast_frame tmp = record {
    h_dest = broadcast_addr;
    h_source = tmp.sll_addr;
    h_proto = eth_p_aa19;
    packet = record {
      type = type_rreq;
      dest_mac = broadcast_addr;
      src_mac = tmp.sll_addr;
      rreq = record {
        hop = pos 0;
        broadcast_id = pos 0;
        force_discovery = pos 0;
        rrep_sent = pos 0;
      };
      payload = memcpy y.garbage msg_str;
    };
    sll_ifindex = tmp.sll_ifindex;
  }

  -- The loop over the interfaces: the result of the last sendto, and the frames, newest first.
  unfoldable pub broadcast_each : List IfInfo → ℤ × List Frame → ℤ × List Frame
  broadcast_each [] r = r
  broadcast_each (tmp ∷ fs) (ret, s) =
      broadcast_each fs (y.sendto s (broadcast_frame tmp), broadcast_frame tmp ∷ s)

  unfoldable pub broadcast_ll_msg : List IfInfo → List Frame → ℤ × List Frame
  broadcast_ll_msg fs s =
      let (ret, s') = broadcast_each fs (pos 0, s) in
      (if leb_ℤ (pos 0) ret then pos 1 else minus_one, s')

  unfoldable pub if_info_of : HwaInfo → IfInfo
  if_info_of h = record {
    sll_addr = h.if_haddr;
    sll_ifindex = h.if_index;
    ip_addr = h.ip_addr;
    if_name = strncpy y.name_garbage h.if_name (length (c_string h.if_name));
    ll_sockfd = pos 0;
  }

  -- The list, and the global `ifname`.
  unfoldable pub fill_if_info_list : List HwaInfo → List IfInfo × List ℕ → List IfInfo × List ℕ
  fill_if_info_list [] r = r
  fill_if_info_list (h ∷ hs) (l, ifname) = fill_if_info_list hs (
      if is_routed h
      then (y.list_add (if_info_of h) l, strncpy ifname h.if_name 4)
      else (l, ifname))

  -- The global `ll_sockfd` is still 0 when main calls this.
  unfoldable pub bind_if_to_socket : ℤ → List IfInfo → List IfInfo
  bind_if_to_socket ll_sockfd [] = []
  bind_if_to_socket ll_sockfd (tmp ∷ l) =
      record tmp { ll_sockfd = ll_sockfd } ∷ bind_if_to_socket ll_sockfd l

  unfoldable pub on_frame : Option Recv → Process → Process
  on_frame none n = n
  on_frame (some recv_error) n = record n { printed = c_string n.buffer ∷ n.printed }
  on_frame (some (received payload)) n = record n {
    buffer = payload;
    printed = c_string payload ∷ n.printed;
  }

  unfoldable pub on_datagram : Option Recv → Process → Progress
  on_datagram none n = running n
  on_datagram (some recv_error) n = err n
  on_datagram (some (received msg)) n =
      running (record n { sent = (broadcast_ll_msg n.if_info_list n.sent).1 })

  unfoldable pub loop : List Round → Process → Progress
  loop [] n = running n
  loop (r ∷ rs) n = elim (on_datagram r.datagram (on_frame r.frame n)) [
    | running m ↦ loop rs m
    | err m ↦ err m
  ]

  -- The state before the loop, from the items of get_hw_addrs and what malloc left in the buffer; `none` if
  -- there is no interface at all, or setsockopt fails.
  unfoldable pub start : List Ifreq → List ℕ → Option Process
  start items buffer = elim (get_hw_addrs_or_quit items) [
    | none ↦ none
    | some hwas ↦
        let (l, ifname) = fill_if_info_list hwas ([], 0 ∷ 0 ∷ 0 ∷ 0 ∷ []) in
        let bound = bind_if_to_socket (pos 0) l in
        if y.setsockopt ifname ==ℤ minus_one
        then none
        else some (record { if_info_list = bound; buffer = buffer; printed = []; sent = [] })
  ]
