-- ===== src/Hwaddrs/Heap.antt =====
-- The list of `get_hw_addrs` as it lies in the heap (get_hw_addrs_aa19.c): how the loop links its entries,
-- how main of prhwaddrs_aa19.c and `fill_if_info_list` walk it, and `free_hwa_info`.
use odr.Prelude.{ℕ, zero, suc, List, [], ◌∷◌, Option, none, some, ◌==◌, if◌then◌else◌}
use odr.Prelude.Int.{ℤ}
use odr.Hwaddrs.{Ifreq, HwaInfo, cut_alias, hwa_of}

-- struct hwa_info, with its two pointers; 0 is NULL.
pub record HwaCell : Type 0 where
  pub if_name : List ℕ
  pub if_haddr : List ℕ
  pub if_index : ℤ
  pub ip_alias : ℤ
  pub ip_addr : ℕ
  pub hwa_next : ℕ

-- What a block of the heap holds.
pub data Block : Type 0 where
  hwa : HwaCell → Block
  sockaddr : List ℕ → Block

-- The blocks that are allocated, by address; the first of an address counts.
abbrev pub Heap : Type 0
Heap = List (ℕ × Block)

unfoldable pub fetch : ℕ → Heap → Option Block
fetch a [] = none
fetch a ((b, x) ∷ h) = let rest = fetch a h in if a == b then some x else rest

unfoldable pub drop : ℕ → Heap → Heap
drop a [] = []
drop a ((b, x) ∷ h) = let rest = drop a h in if a == b then rest else (b, x) ∷ rest

-- Where `hwapnext` points: at `hwahead`, or at the field `hwa_next` of a block.
pub data Hwapnext : Type 0 where
  at_hwahead : Hwapnext
  at_hwa_next : ℕ → Hwapnext

pub record Listing : Type 0 where
  pub heap : Heap
  pub hwahead : ℕ
  pub hwapnext : Hwapnext
  pub lastname : List ℕ

infixl 5 ◌>>=◌
abbrev pub ◌>>=◌ {ℓ κ} : {A : Type ℓ} {B : Type κ} → Option A → (A → Option B) → Option B
none >>= f = none
some a >>= f = f a

-- The block of an address as an entry, and as an address of an interface.
abbrev pub as_hwa : Block → Option HwaCell
as_hwa (hwa n) = some n
as_hwa (sockaddr s) = none

abbrev pub as_sockaddr : Block → Option (List ℕ)
as_sockaddr (hwa n) = none
as_sockaddr (sockaddr s) = some s

unfoldable pub get_hwa : ℕ → Heap → Option HwaCell
get_hwa a h = fetch a h >>= as_hwa

unfoldable pub get_sockaddr : ℕ → Heap → Option (List ℕ)
get_sockaddr a h = fetch a h >>= as_sockaddr

-- `*hwapnext = hwa`
unfoldable pub link : ℕ → Listing → Option Listing
link a l = elim (l.hwapnext) [
  | at_hwahead ↦ some (record l { hwahead = a })
  | at_hwa_next c ↦ get_hwa c l.heap >>= λ n.
      some (record l { heap = (c, hwa (record n { hwa_next = a })) ∷ l.heap })
]

-- The fields of an entry, with its two pointers.
unfoldable pub cell_of : HwaInfo → ℕ → ℕ → HwaCell
cell_of x s next = record {
  if_name = x.if_name;
  if_haddr = x.if_haddr;
  if_index = x.if_index;
  ip_alias = x.ip_alias;
  ip_addr = s;
  hwa_next = next;
}

-- What an entry says, with the address that it points at.
unfoldable pub info_of : HwaCell → List ℕ → HwaInfo
info_of n s = record {
  if_name = n.if_name;
  if_haddr = n.if_haddr;
  if_index = n.if_index;
  ip_alias = n.ip_alias;
  ip_addr = s;
}

-- `Calloc` gives an address for what the heap holds.
module _ (calloc : Heap → ℕ) where
  -- One round of the loop: an entry, its link, and its address.
  unfoldable pub list_one : Ifreq → Listing → Option Listing
  list_one item l =
      let x = hwa_of l.lastname item in
      let a = calloc l.heap in
      link a (record l { heap = (a, hwa (cell_of x 0 0)) ∷ l.heap }) >>= λ m.
      let s = calloc m.heap in
      some (record {
        heap = (a, hwa (cell_of x s 0)) ∷ (s, sockaddr x.ip_addr) ∷ m.heap;
        hwahead = m.hwahead;
        hwapnext = at_hwa_next a;
        lastname = cut_alias item.ifr_name;
      })

  unfoldable pub list_all : List Ifreq → Listing → Option Listing
  list_all [] l = some l
  list_all (item ∷ items) l = list_one item l >>= list_all items

  -- get_hw_addrs, from the items that the last ioctl call filled in and the heap before.
  unfoldable pub allocate : List Ifreq → Heap → Option Listing
  allocate items h =
      list_all items (record { heap = h; hwahead = 0; hwapnext = at_hwahead; lastname = 0 ∷ [] })

-- The loop over the list, from a pointer: what it reads; `none` is an access to a block that is not
-- allocated, or no end within the fuel.
unfoldable pub read_list : ℕ → ℕ → Heap → Option (List HwaInfo)
read_list zero a h = none
read_list (suc fuel) a h = if a == 0 then some [] else do
  n ← get_hwa a h
  s ← get_sockaddr n.ip_addr h
  xs ← read_list fuel n.hwa_next h
  some (info_of n s ∷ xs)

-- free, which ignores NULL; `none` if no block is allocated there.
unfoldable pub free : ℕ → Heap → Option Heap
free a h = if a == 0 then some h else fetch a h >>= λ x. some (drop a h)

-- One round of the loop of free_hwa_info: the pointer to the next entry, and the heap.
unfoldable pub free_one : ℕ → Heap → Option (ℕ × Heap)
free_one a h = do
  n ← get_hwa a h
  h' ← free n.ip_addr h
  m ← get_hwa a h'
  h'' ← free a h'
  some (m.hwa_next, h'')

-- free_hwa_info; `none` is an access to a block that is not allocated, or no end within the fuel.
unfoldable pub free_hwa_info : ℕ → ℕ → Heap → Option Heap
free_hwa_info zero a h = none
free_hwa_info (suc fuel) a h =
    if a == 0 then some h else free_one a h >>= λ (hwanext, h'). free_hwa_info fuel hwanext h'
