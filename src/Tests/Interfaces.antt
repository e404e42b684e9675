-- ===== src/Tests/Interfaces.antt =====
-- Examples for the list of interfaces, in the heap and in the sends.
use odr.Prelude.{
  length, map, ℕ, suc, ◌≤◌, ◌<◌, ◌≡◌, refl, List, [], ◌∷◌, none, some, arith, ltb, if◌then◌else◌,
}
use odr.Prelude.Int.{pos}
use odr.Hwaddrs.{Ifreq, get_hw_addrs, fill_if_info_list, hwa_of, is_routed}
use odr.Hwaddrs.Heap.{Heap, sockaddr, Listing, fetch, allocate, read_list, free_hwa_info}
use odr.Tests.{vm1, vm1-AddsLast, neighbour, pack}
use odr.Structs.{type_rreq}
use odr.CString.{strncmp_eq, byte_at}
use odr.Link.{broadcast_ll_msg, send_ll_msg}
use odr.Link.Frames.{push_all, flood, unicast}
use odr.Hwaddrs.Aliases.{used, info, addresses, frames_by_address}
use odr.Hwaddrs.Grown.{Allocates}
use odr.Hwaddrs.Built.{list_of_interfaces}

-- The address after all that are in use.
abbrev top : Heap → ℕ
top [] = 1
top ((a, x) ∷ h) = let rest = top h in if ltb a rest then rest else suc a

above : (b : ℕ) (h : Heap) → top h ≤ b → fetch b h ≡ none
unfolding fetch
above b [] e = refl
above b ((a, x) ∷ h) e = ground (arith, above b h)

top-positive : (h : Heap) → 0 < top h
top-positive [] = omega arith
top-positive ((a, x) ∷ h) = ground (arith, top-positive h)

top-Allocates : Allocates top
top-Allocates = record {
  not_null = λ h e. omega (arith, top-positive h);
  unused = λ h. above (top h) h (omega arith);
}

-- An interface with an alias, and a block that was there before.
abbrev item : List ℕ → ℕ → Ifreq
item name n = record { ifr_name = name; ifr_addr = n ∷ []; hwaddr = neighbour; ifindex = pos 3 }

abbrev items : List Ifreq
items =
    item (b'e' ∷ b't' ∷ b'h' ∷ b'1' ∷ 0 ∷ []) 1
    ∷ item (b'e' ∷ b't' ∷ b'h' ∷ b'1' ∷ b':' ∷ b'1' ∷ 0 ∷ []) 2
    ∷ []

abbrev before : Heap
before = (4, sockaddr (b'x' ∷ [])) ∷ []

list_of_interfaces_example :
    (u : Listing) × (k : Heap) × (allocate top items before ≡ some u)
    × (read_list 3 u.hwahead u.heap ≡ some (get_hw_addrs items))
    × (free_hwa_info 3 u.hwahead u.heap ≡ some k)
    × ((b : ℕ) → fetch b k ≡ fetch b before)
list_of_interfaces_example = list_of_interfaces top top-Allocates items before

-- A broadcast from vm1 with these interfaces, and a unicast through the interface.
frames_by_address_example :
    let fs = fill_if_info_list vm1 (get_hw_addrs items) [] in
    let k = pack type_rreq b'2' b'3' (pos 9) (pos 2) in
    ((broadcast_ll_msg vm1 fs k (pos 3) []).1
      ≡ push_all (flood k (pos 3) (map info (used items))) [])
    × ((send_ll_msg vm1 fs k neighbour (pos 3) []).1
        ≡ push_all (unicast k neighbour (pos 3) (map info (used items))) [])
    × (length (unicast k neighbour (pos 3) (map info (used items)))
        ≡ addresses (pos 3) (used items))
frames_by_address_example =
    frames_by_address vm1 vm1-AddsLast items (pack type_rreq b'2' b'3' (pos 9) (pos 2)) neighbour
      (pos 3) []

-- The interface and its alias are two addresses.
two_frames : addresses (pos 3) (used items) ≡ 2
unfolding is_routed hwa_of strncmp_eq byte_at
two_frames = refl
