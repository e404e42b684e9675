-- ===== src/Print.antt =====
-- What is printed: print_hwaddr of odr.h, print_routing_table of rtbl.h, and the rows of
-- prhwaddrs_aa19.c. A row holds what the calls of printf say of one entry.
pub mod Hex
pub mod Rows
use Prim.Native.Nat.{◌/◌}
use odr.Prelude.{
  ℕ, ◌+◌, ◌%◌, Bool, true, false, not, ◌&&◌, List, [], ◌∷◌, ◌++◌, Option, none, some, ltb, ◌==◌,
  if◌then◌else◌,
}
use odr.Prelude.Int.{ℤ, pos, ◌-ℤ◌, ◌==ℤ◌, to_char}
use odr.Structs.{Entry}
use odr.CString.{byte_at, bytes, c_string}
use odr.Platform.{Platform}
use odr.Table.{Rtbl}
use odr.Hwaddrs.{HwaInfo}

-- A digit of %x.
unfoldable pub hex_digit : ℕ → ℕ
hex_digit d = if ltb d 10 then b'0' + d else 87 + d

-- printf("%.2x", c & 0xff).
unfoldable pub octet : ℕ → List ℕ
octet c = hex_digit (c % 256 / 16) ∷ hex_digit (c % 16) ∷ []

-- "%.2x:" for each byte.
unfoldable pub octets : List ℕ → List ℕ
octets [] = []
octets (c ∷ cs) = (octet c ++ b':' ∷ []) ++ octets cs

unfoldable pub print_hwaddr : List ℕ → List ℕ
print_hwaddr hw_addr = octets (bytes 6 hw_addr) ++ 10 ∷ []

-- The node's own name, as gethostname leaves it in an array of 5 bytes, and a line end.
unfoldable pub print_self_name : Platform → List ℕ
print_self_name p =
    let hostname : List ℕ = elim p.gethostname [ some h ↦ h | none ↦ p.stack_bytes ] in
    c_string hostname ++ 10 ∷ []

-- An entry of the routing table, as printed.
pub record Row : Type 0 where
  pub key : ℤ
  pub dest : List ℕ
  pub next_hop : List ℕ
  pub if_no : ℤ
  pub hops : ℤ
  pub timestamp : ℤ

unfoldable pub row_of : Entry → Row
row_of e = record {
  key = e.key;
  dest = c_string e.dest_can_ip_str;
  next_hop = print_hwaddr e.next_hop_hwaddr;
  if_no = e.if_no;
  hops = e.hop;
  timestamp = e.ts;
}

-- The number in the node's own name.
unfoldable pub self_idx : Platform → ℤ
self_idx p =
    let hostname : List ℕ = elim p.gethostname [ some h ↦ h | none ↦ p.stack_bytes ] in
    if byte_at hostname 2 == b'1' && byte_at hostname 3 == b'0'
    then pos 10
    else to_char (pos (byte_at hostname 2)) -ℤ pos b'0'

unfoldable pub rows : ℤ → List Entry → List Row
rows self [] = []
rows self (e ∷ es) = if not (e.key ==ℤ self) then row_of e ∷ rows self es else rows self es

unfoldable pub print_routing_table : Platform → Rtbl → List Row
print_routing_table p t = rows (self_idx p) t.entries

-- An interface as prhwaddrs prints it: whether it says (alias), the address, the hardware address unless
-- all its bytes are NUL, and the index.
pub record HwaRow : Type 0 where
  pub name : List ℕ
  pub alias : Bool
  pub ip : List ℕ
  pub hw : Option (List ℕ)
  pub index : ℤ

-- The loop that looks for a byte other than NUL.
unfoldable pub prflag : List ℕ → Bool
prflag [] = false
prflag (c ∷ cs) = if not (c == 0) then true else prflag cs

-- A colon behind each byte, but a space behind the last.
unfoldable pub hw_text : List ℕ → List ℕ
hw_text [] = []
hw_text (c ∷ []) = octet c ++ b' ' ∷ []
hw_text (c ∷ d ∷ cs) = (octet c ++ b':' ∷ []) ++ hw_text (d ∷ cs)

unfoldable pub hwa_row : HwaInfo → HwaRow
hwa_row h = record {
  name = c_string h.if_name;
  alias = h.ip_alias ==ℤ pos 1;
  ip = h.ip_addr;
  hw = if prflag (bytes 6 h.if_haddr) then some (hw_text (bytes 6 h.if_haddr)) else none;
  index = h.if_index;
}

unfoldable pub prhwaddrs : List HwaInfo → List HwaRow
prhwaddrs [] = []
prhwaddrs (h ∷ hs) = hwa_row h ∷ prhwaddrs hs
