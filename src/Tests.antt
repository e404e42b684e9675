-- ===== src/Tests.antt =====
-- A small network for the tests: the node vm1 with two interfaces, and packets of its neighbours.
mod Tables
mod Packets
mod Replies
mod Requests
mod Clients
mod Discovery
mod Network
mod Faults
mod Trail
mod Program
mod Printing
mod Once
mod Interfaces
mod Multihop
mod Progress
mod Overtaken
mod Own
mod Reaches
mod Forced
mod Copies
mod Early
use odr.Prelude.{ℕ, ◌+◌, ◌≡◌, ◌≢◌, refl, ap, List, [], ◌∷◌, ◌++◌, Option, none, some, arith}
use odr.Prelude.Int.{ℤ, pos, ◌-ℤ◌, ==ℤ_refl, to_char, pos_part}
use odr.Structs.{OdrPack, OdrReq, IfInfo, Entry, type_rreq, type_rrep, type_data, minus_one}
use odr.CString.{byte_at, strncpy, bytes, c_string}
use odr.Platform.{Platform, AddsLast}
use odr.Table.{Rtbl, get_index_from_ip, first_with, entry_exists_for_src}
use odr.Table.Keys.{Distinct}
use odr.Table.Routes.{route}
use odr.Link.Frames.{Healthy}
use odr.Node.{Node}
use odr.Odr.Safe.{Slot}
use odr.Odr.Valid.{IsValid}
use odr.Main.{get_can_ip}

-- A platform on which the address of each node is the digit of its name.
abbrev pub vm1 : Platform
vm1 = record {
  clock = λ n. pos (100 + n);
  getnameinfo = λ text i. byte_at (b'v' ∷ b'm' ∷ byte_at text 0 ∷ []) i;
  gethostname = some (b'v' ∷ b'm' ∷ b'1' ∷ []);
  gethostbyname = λ name. byte_at name 2 ∷ [];
  inet_ntop = λ a n. some a;
  inet_ntoa = λ a. a;
  sock_ntop = λ text. text ++ b':' ∷ b'5' ∷ [];
  stack_bytes = [];
  heap_bytes = bytes 15 [];
  rtbl_add = λ e es. es ++ e ∷ [];
  if_add = λ i is. is ++ i ∷ [];
  sendto = λ s o. pos 140;
  server_answer = λ s. some (bytes 32 (b'M' ∷ b'o' ∷ b'n' ∷ []));
}

abbrev pub address : ℕ → List ℕ
address c = bytes 15 (c ∷ [])

abbrev pub eth1 : IfInfo
eth1 = record { sll_addr = 1 ∷ 1 ∷ 1 ∷ 1 ∷ 1 ∷ 1 ∷ []; sll_ifindex = pos 3 }

abbrev pub eth2 : IfInfo
eth2 = record { sll_addr = 2 ∷ 2 ∷ 2 ∷ 2 ∷ 2 ∷ 2 ∷ []; sll_ifindex = pos 4 }

abbrev pub neighbour : List ℕ
neighbour = 7 ∷ 7 ∷ 7 ∷ 7 ∷ 7 ∷ 7 ∷ []

-- A packet of a type, from one node to another, with an id and a hop count.
abbrev pub pack : ℤ → ℕ → ℕ → ℤ → ℤ → OdrPack
pack type src dest id hop = record {
  type = type;
  dest_can_ip_str = address dest;
  src_can_ip_str = address src;
  rreq = record { hop = hop; broadcast_id = id; force_discovery = pos 0; rrep_sent = pos 0 };
  rrep = record { hop = hop; broadcast_id = pos 1; force_discovery = pos 0 };
  payload = bytes 64 (b't' ∷ []);
  src_dest = pos 1;
}

-- The node before its first packet.
abbrev pub node : Node
node = record {
  rtbl = record { entries = []; sp = pos 5; reads = 0 };
  if_info_list = eth1 ∷ eth2 ∷ [];
  latest_rreq =
      pos 0 ∷ pos 0 ∷ pos 0 ∷ pos 0 ∷ pos 0 ∷ pos 0 ∷ pos 0 ∷ pos 0 ∷ pos 0 ∷ pos 0 ∷ pos 0 ∷ [];
  running_broadcast_no = pos 1;
  forced_discovery = pos 0;
  route_discovered = pos 0;
  msg = bytes 32 [];
  server_time_reply = bytes 32 [];
  al_client_addr = b'c' ∷ [];
  server_port = pos 57575;
  source_packet = pack type_rreq b'1' b'3' (pos 0) (pos 0);
  sent = [];
}

-- The node with an entry for a node, three hops away, read at the given time.
abbrev pub entry : ℕ → ℤ → Entry
entry c ts = record {
  key = get_index_from_ip vm1 (address c);
  dest_can_ip_str = address c;
  next_hop_hwaddr = neighbour;
  if_no = pos 4;
  hop = pos 3;
  ts = ts;
}

abbrev pub knowing : ℕ → ℤ → Node
knowing c ts = record node { rtbl = record (node.rtbl) { entries = entry c ts ∷ [] } }

pub vm1-AddsLast : AddsLast vm1
vm1-AddsLast = record { rtbl_last = λ e es. refl; if_last = λ i is. refl }

pub vm1-Healthy : Healthy vm1
vm1-Healthy = record { sends = λ s o. omega arith }

pub node-IsValid : IsValid node
node-IsValid = record { table = record { distinct = tt; bounded = tt }; slots = refl }

pub vm2-Slot : Slot (get_index_from_ip vm1 (address b'2'))
unfolding get_index_from_ip c_string bytes byte_at ◌-ℤ◌ to_char
vm2-Slot = (omega arith, omega arith)

pub own-Slot : Slot (get_index_from_ip vm1 (get_can_ip vm1))
unfolding get_index_from_ip c_string bytes byte_at get_can_ip ◌-ℤ◌ to_char strncpy
own-Slot = (omega arith, omega arith)

-- The route to a node of which the table knows.
abbrev pub key_of : ℕ → ℤ
key_of c = get_index_from_ip vm1 (address c)

abbrev pub table_of : ℕ → ℤ → Rtbl
table_of c ts = (knowing c ts).rtbl

pub route-table_of : (c : ℕ) (ts : ℤ) → route (key_of c) (table_of c ts) ≡ some (entry c ts)
unfolding first_with
route-table_of c ts = rw (==ℤ_refl (key_of c))

pub entry-Distinct : (c : ℕ) (ts : ℤ) → Distinct (entry c ts ∷ [])
unfolding entry_exists_for_src
entry-Distinct c ts = (refl, tt)

pub knowing-IsValid : (c : ℕ) (ts : ℤ) → IsValid (knowing c ts)
knowing-IsValid c ts = record {
  table = record { distinct = entry-Distinct c ts; bounded = (omega arith, tt) };
  slots = refl;
}
