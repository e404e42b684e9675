-- ===== src/Hwaddrs/Built.antt =====
-- The list that `get_hw_addrs` leaves in the heap, from the link of its first entry to `free_hwa_info`.
use odr.Prelude.{
  ℕ, suc, ◌≡◌, refl, sym, ap, subst, ◌∙◌, false, List, [], ◌∷◌, some, arith, length, Bool-cases,
  inl, inr,
}
use odr.Hwaddrs.{Ifreq, cut_alias, hwa_of, hwa_list, get_hw_addrs}
use odr.Hwaddrs.Heap.{
  Heap, Block, Listing, hwa, sockaddr, fetch, link, cell_of, list_one, list_all, allocate,
  read_list, free_hwa_info,
}
use odr.Hwaddrs.Fetch.{fetch-here, fetch-past, fetch-unused}
use odr.Hwaddrs.Chain.{owns, Chain, read-Chain, free-Chain}
use odr.Hwaddrs.Grown.{Allocates, New, not_owned, New-cons, grow}

module _ (calloc : Heap → ℕ) (ok : Allocates calloc) where
  -- The list lies in new blocks, and the others are as before.
  record Listed (items : List Ifreq) (h : Heap) (u : Listing) : Type 0 where
    blocks : List (ℕ × ℕ)
    chain : Chain u.heap u.hwahead (get_hw_addrs items) blocks
    others : (b : ℕ) → owns blocks b ≡ false → fetch b u.heap ≡ fetch b h
    new : New h blocks

  allocate-Listed :
      (items : List Ifreq) (h : Heap)
      → (u : Listing) × (allocate calloc items h ≡ some u) × Listed items h u
  unfolding allocate list_all list_one link get_hw_addrs hwa_list
  allocate-Listed [] h = (
    _,
    refl,
    record { blocks = []; chain = refl; others = λ b q. refl; new = λ b q. ground arith },
  )
  allocate-Listed (item ∷ items) h =
      let y = hwa_of (0 ∷ []) item in
      let a = calloc h in
      let h' : Heap = (a, hwa (cell_of y 0 0)) ∷ h in
      let t = calloc h' in
      let address : Block = sockaddr (y.ip_addr) in
      let k : Heap = (a, hwa (cell_of y t 0)) ∷ (t, address) ∷ h' in
      let (ta, th) = fetch-unused t a (hwa (cell_of y 0 0)) h (ok.unused h') in
      let here = fetch-here a (hwa (cell_of y t 0)) ((t, address) ∷ h') in
      let (u, q, g) = grow calloc ok items (cut_alias item.ifr_name) k a t a y here in
      let at_t : fetch t k ≡ some address =
        fetch-past t a (hwa (cell_of y t 0)) ((t, address) ∷ h') ta ∙ fetch-here t address h' in
      (
        u,
        q,
        record {
          blocks = (a, t) ∷ g.blocks;
          chain = (
            g.next,
            record {
              here = g.same;
              not_null = ok.not_null h;
              address_not_null = ok.not_null h';
              apart = ground (arith, ta);
              entry = g.last;
              address = g.others t ta (not_owned k g.blocks t address g.new at_t) ∙ at_t;
            },
            not_owned k g.blocks a (hwa (cell_of y t 0)) g.new here,
            not_owned k g.blocks t address g.new at_t,
            g.chain,
          );
          others = λ b own.
              g.others b (ground arith) (ground arith)
              ∙ fetch-past b a (hwa (cell_of y t 0)) ((t, address) ∷ h') (ground arith)
              ∙ fetch-past b t address h' (ground arith)
              ∙ fetch-past b a (hwa (cell_of y 0 0)) h (ground arith);
          new = New-cons h a t g.blocks (ok.unused h) th (λ b own.
              (fetch-unused b a (hwa (cell_of y 0 0)) h
                (fetch-unused b t address h'
                  (fetch-unused b a (hwa (cell_of y t 0)) ((t, address) ∷ h')
                    (g.new b own)).1).1).1);
        },
      )

  length-hwa_list :
      (items : List Ifreq) (lastname : List ℕ) → length (hwa_list lastname items) ≡ length items
  unfolding hwa_list
  length-hwa_list [] lastname = refl
  length-hwa_list (item ∷ items) lastname = ap suc (length-hwa_list items (cut_alias item.ifr_name))

  -- The list of interfaces in the heap, for any items and any heap before: get_hw_addrs links its
  -- entries without an access to a block that is not allocated, the walk over the list reads the
  -- entries of the list's description in order, and free_hwa_info then ends without a use after
  -- free or a double free and leaves each block of the heap as it was before the list, so that
  -- all blocks of the list are free again. The allocator gives addresses that are not in use and
  -- not NULL, and the fuel is one more than the number of items.
  pub list_of_interfaces :
      (items : List Ifreq) (h : Heap)
      → (u : Listing) × (k : Heap) × (allocate calloc items h ≡ some u)
        × (read_list (suc (length items)) u.hwahead u.heap ≡ some (get_hw_addrs items))
        × (free_hwa_info (suc (length items)) u.hwahead u.heap ≡ some k)
        × ((b : ℕ) → fetch b k ≡ fetch b h)
  unfolding get_hw_addrs
  list_of_interfaces items h =
      let (u, e, l) = allocate-Listed items h in
      let xs = get_hw_addrs items in
      let size : length xs ≡ length items = length-hwa_list items (0 ∷ []) in
      let (k, f, gone) = free-Chain u.heap u.hwahead xs l.blocks l.chain in
      (
        u,
        k,
        e,
        subst (λ n. read_list (suc n) u.hwahead u.heap ≡ some xs) size
            (read-Chain u.heap u.hwahead xs l.blocks l.chain),
        subst (λ n. free_hwa_info (suc n) u.hwahead u.heap ≡ some k) size f,
        λ b. gone b ∙ elim (Bool-cases (owns l.blocks b)) [
          | inl own ↦ rw own (sym (l.new b own))
          | inr other ↦ rw other (l.others b other)
        ],
      )
