-- ===== src/Hwaddrs.antt =====
-- get_hw_addrs_aa19.c, and `fill_if_info_list` of odr_aa19.c, which reads its list.
pub mod Sizing
pub mod Interfaces
pub mod Heap
pub mod Fetch
pub mod Chain
pub mod Grown
pub mod Built
pub mod Aliases
use odr.Prelude.{
  ℕ, zero, suc, ◌+◌, ◌*◌, Bool, true, false, not, ◌&&◌, ◌||◌, List, [], ◌∷◌, Option, none, some,
  set, ◌==◌, if◌then◌else◌,
}
use odr.Prelude.Int.{ℤ, pos}
use odr.Structs.{IfInfo}
use odr.CString.{strncmp_eq}
use odr.Platform.{Platform}

-- ioctl(SIOCGIFCONF) with a buffer of a length: the bytes that it fills, or an error, which is
-- EINVAL or not.
pub data Ifconf : Type 0 where
  filled : ℕ → Ifconf
  error : Bool → Ifconf

-- The length of the list, `err_sys`, or no end within the fuel.
pub data Sized : Type 0 where
  sized : ℕ → Sized
  err_sys : Sized
  no_fuel : Sized

-- The loop that looks for a buffer that is large enough, with the size of a `struct ifreq`.
unfoldable pub sizing : (ℕ → Ifconf) → ℕ → ℕ → ℕ → ℕ → Sized
sizing ioctl ifreq zero lastlen len = no_fuel
sizing ioctl ifreq (suc fuel) lastlen len = elim (ioctl len) [
  | filled n ↦
      let next = sizing ioctl ifreq fuel n (len + 10 * ifreq) in
      if n == lastlen then sized n else next
  | error einval ↦
      let next = sizing ioctl ifreq fuel lastlen (len + 10 * ifreq) in
      if not einval || not (lastlen == 0) then err_sys else next
]

-- `struct ifreq` of one interface, with what the two further ioctl calls say of its name.
pub record Ifreq : Type 0 where
  pub ifr_name : List ℕ
  pub ifr_addr : List ℕ
  pub hwaddr : List ℕ
  pub ifindex : ℤ

pub record HwaInfo : Type 0 where
  pub if_name : List ℕ
  pub if_haddr : List ℕ
  pub if_index : ℤ
  pub ip_alias : ℤ
  pub ip_addr : List ℕ

-- The colon that strchr finds in the name becomes a NUL.
unfoldable pub cut_alias : List ℕ → List ℕ
cut_alias [] = []
cut_alias (c ∷ cs) = if c == 0 then c ∷ cs else if c == b':' then 0 ∷ cs else c ∷ cut_alias cs

-- One round: the entry for an item, after an item of the name `lastname`.
unfoldable pub hwa_of : List ℕ → Ifreq → HwaInfo
hwa_of lastname item = record {
  if_name = set item.ifr_name 15 0;
  if_haddr = item.hwaddr;
  if_index = item.ifindex;
  ip_alias = if strncmp_eq lastname (cut_alias item.ifr_name) 16 then pos 1 else pos 0;
  ip_addr = item.ifr_addr;
}

unfoldable pub hwa_list : List ℕ → List Ifreq → List HwaInfo
hwa_list lastname [] = []
hwa_list lastname (item ∷ items) = hwa_of lastname item ∷ hwa_list (cut_alias item.ifr_name) items

-- get_hw_addrs, from the items that the last ioctl call filled in.
unfoldable pub get_hw_addrs : List Ifreq → List HwaInfo
get_hw_addrs items = hwa_list (0 ∷ []) items

-- Get_hw_addrs quits, `none`, on an empty list.
unfoldable pub get_hw_addrs_or_quit : List Ifreq → Option (List HwaInfo)
get_hw_addrs_or_quit [] = none
get_hw_addrs_or_quit (item ∷ items) = some (get_hw_addrs (item ∷ items))

-- Neither the loopback interface nor eth0.
unfoldable pub is_routed : HwaInfo → Bool
is_routed h =
    not (strncmp_eq h.if_name (b'l' ∷ b'o' ∷ []) 2)
    && not (strncmp_eq h.if_name (b'e' ∷ b't' ∷ b'h' ∷ b'0' ∷ []) 4)

unfoldable pub if_info_of : HwaInfo → IfInfo
if_info_of h = record { sll_addr = h.if_haddr; sll_ifindex = h.if_index }

unfoldable pub fill_if_info_list : Platform → List HwaInfo → List IfInfo → List IfInfo
fill_if_info_list p [] l = l
fill_if_info_list p (h ∷ hs) l =
    fill_if_info_list p hs (if is_routed h then p.if_add (if_info_of h) l else l)
