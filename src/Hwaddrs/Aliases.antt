-- ===== src/Hwaddrs/Aliases.antt =====
-- The frames that go out on a machine, by the interface addresses that its kernel lists.
use odr.Prelude.{
  ℕ, ◌+◌, ◌≡◌, refl, ap, ◌∙◌, Bool, List, [], ◌∷◌, map, length, if◌then◌else◌, Bool-cases, inl, inr,
  arith,
}
use odr.Prelude.Int.{ℤ, ◌==ℤ◌}
use odr.Structs.{OdrPack, IfInfo, Out}
use odr.Platform.{Platform, AddsLast}
use odr.Link.{broadcast_ll_msg, send_ll_msg}
use odr.Link.Frames.{push_all, flood, unicast, broadcast-frames, send-frames}
use odr.Hwaddrs.{
  Ifreq, hwa_of, hwa_list, cut_alias, get_hw_addrs, is_routed, if_info_of, fill_if_info_list,
}
use odr.Hwaddrs.Interfaces.{routed, fill-map}

-- An address whose interface is used, alias or not, and the hardware address and the index that it gives.
abbrev is_used : Ifreq → Bool
is_used item = is_routed (hwa_of [] item)

abbrev pub used : List Ifreq → List Ifreq
used [] = []
used (item ∷ items) = if is_used item then item ∷ used items else used items

abbrev pub info : Ifreq → IfInfo
info item = record { sll_addr = item.hwaddr; sll_ifindex = item.ifindex }

-- How many of the addresses belong to the interface of an index.
abbrev pub addresses : ℤ → List Ifreq → ℕ
addresses i [] = 0
addresses i (item ∷ items) = (if i ==ℤ item.ifindex then 1 else 0) + addresses i items

listed :
    (lastname : List ℕ) (items : List Ifreq)
    → map if_info_of (routed (hwa_list lastname items)) ≡ map info (used items)
unfolding hwa_list hwa_of is_routed if_info_of
listed lastname [] = refl
listed lastname (item ∷ items) = elim (Bool-cases (is_used item)) [
  | inl keep ↦ rw keep (ap (λ l. info item ∷ l) (listed (cut_alias item.ifr_name) items))
  | inr skip ↦ rw skip (listed (cut_alias item.ifr_name) items)
]

length-unicast :
    (k : OdrPack) (to : List ℕ) (i : ℤ) (items : List Ifreq)
    → length (unicast k to i (map info items)) ≡ addresses i items
length-unicast k to i [] = refl
length-unicast k to i (item ∷ items) = elim (Bool-cases (i ==ℤ item.ifindex)) [
  | inl same ↦ rw same (omega (arith, length-unicast k to i items))
  | inr other ↦ rw other (omega (arith, length-unicast k to i items))
]

filled :
    (p : Platform) (last : AddsLast p) (items : List Ifreq)
    → fill_if_info_list p (get_hw_addrs items) [] ≡ map info (used items)
unfolding get_hw_addrs
filled p last items = fill-map p last (get_hw_addrs items) [] ∙ listed (0 ∷ []) items

-- What goes out follows the list of addresses that the kernel gives, of whatever content: over
-- the interfaces that get_hw_addrs and fill_if_info_list make of the list, a broadcast hands over
-- one frame for each address whose name begins neither with lo nor with eth0 and whose index is
-- not the given one, in order, and a unicast one for each of them whose index is the given one;
-- so a unicast goes out as many times as its interface has addresses, aliases included. list_add
-- adds last.
pub frames_by_address :
    (p : Platform)
    → AddsLast p
    → (items : List Ifreq) (k : OdrPack) (to : List ℕ) (i : ℤ) (s : List Out)
    → let fs = fill_if_info_list p (get_hw_addrs items) [] in
      ((broadcast_ll_msg p fs k i s).1 ≡ push_all (flood k i (map info (used items))) s)
      × ((send_ll_msg p fs k to i s).1 ≡ push_all (unicast k to i (map info (used items))) s)
      × (length (unicast k to i (map info (used items))) ≡ addresses i (used items))
frames_by_address p last items k to i s =
    let e = filled p last items in
    let fs = fill_if_info_list p (get_hw_addrs items) [] in
    (
      broadcast-frames p k i fs s ∙ ap (λ l. push_all (flood k i l) s) e,
      send-frames p k to i fs s ∙ ap (λ l. push_all (unicast k to i l) s) e,
      length-unicast k to i (used items),
    )
