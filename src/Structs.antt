-- ===== src/Structs.antt =====
-- The data types and constants of odr.h, rtbl.h and common.h. An `int` and a `time_t` is a ℤ, a
-- `char` array the list of its bytes.
use odr.Prelude.{ℕ, List}
use odr.Prelude.Int.{ℤ, pos, negsuc}

abbrev pub type_rreq : ℤ
type_rreq = pos 0

abbrev pub type_rrep : ℤ
type_rrep = pos 1

abbrev pub type_data : ℤ
type_data = pos 2

-- MAXH
abbrev pub max_hops : ℤ
max_hops = pos 15

-- ETH_P_AA19
abbrev pub eth_p_aa19 : ℕ
eth_p_aa19 = 0x999

-- SERVER_PORT
abbrev pub server_port_number : ℤ
server_port_number = pos 57575

-- -1, the C program's failure value.
abbrev pub minus_one : ℤ
minus_one = negsuc 0

pub record RreqHdr : Type 0 where
  pub hop : ℤ
  pub broadcast_id : ℤ
  pub force_discovery : ℤ
  pub rrep_sent : ℤ

pub record RrepHdr : Type 0 where
  pub hop : ℤ
  pub broadcast_id : ℤ
  pub force_discovery : ℤ

pub record OdrPack : Type 0 where
  pub type : ℤ
  pub dest_can_ip_str : List ℕ
  pub src_can_ip_str : List ℕ
  pub rreq : RreqHdr
  pub rrep : RrepHdr
  pub payload : List ℕ
  pub src_dest : ℤ

-- The fields of `struct if_info` that the sends read: the address and the index of `physical_addr`.
pub record IfInfo : Type 0 where
  pub sll_addr : List ℕ
  pub sll_ifindex : ℤ

-- `struct routing_table` without its link.
pub record Entry : Type 0 where
  pub key : ℤ
  pub dest_can_ip_str : List ℕ
  pub next_hop_hwaddr : List ℕ
  pub if_no : ℤ
  pub hop : ℤ
  pub ts : ℤ

pub record OdrReply : Type 0 where
  pub time : List ℕ
  pub ip : List ℕ
  pub port : ℤ

pub record OdrReq : Type 0 where
  pub msg : List ℕ
  pub forced_discovery : ℤ

-- A link-layer frame as it is handed to `sendto`, with the interface index of its `sockaddr_ll`.
pub record Frame : Type 0 where
  pub h_dest : List ℕ
  pub h_source : List ℕ
  pub h_proto : ℕ
  pub sll_ifindex : ℤ
  pub packet : OdrPack

-- What a call of `sendto` passes on: a frame, a reply to the client at a socket path, or a request
-- to the server process.
pub data Out : Type 0 where
  to_link : Frame → Out
  to_client : List ℕ → OdrReply → Out
  to_server : List ℕ → Out
