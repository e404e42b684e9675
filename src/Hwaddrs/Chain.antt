-- ===== src/Hwaddrs/Chain.antt =====
-- The entries of an interface list in the heap, and what the walk and `free_hwa_info` do with them.
use odr.Prelude.{
  ℕ, suc, ◌≡◌, ◌≢◌, refl, ap, ◌∙◌, Bool, true, false, ◌||◌, List, [], ◌∷◌, none, some, arith,
  length, ◌==◌, if◌then◌else◌,
}
use odr.Hwaddrs.{HwaInfo}
use odr.Hwaddrs.Heap.{
  Heap, hwa, sockaddr, fetch, drop, get_hwa, get_sockaddr, cell_of, info_of, read_list, free,
  free_one, free_hwa_info,
}

pub fetch-drop : (b a : ℕ) (h : Heap) → fetch b (drop a h) ≡ (if b == a then none else fetch b h)
unfolding fetch drop
fetch-drop b a [] = ground arith
fetch-drop b a ((c, x) ∷ h) = ground (arith, fetch-drop b a h)

-- An address is one of the list's.
abbrev pub owns : List (ℕ × ℕ) → ℕ → Bool
owns [] b = false
owns ((c, s) ∷ l) b = b == c || (b == s || owns l b)

-- An entry at `c`, and its address at `s`.
pub record Cell (h : Heap) (a : ℕ) (x : HwaInfo) (c s m : ℕ) : Type 0 where
  pub here : a ≡ c
  pub not_null : c ≢ 0
  pub address_not_null : s ≢ 0
  pub apart : c ≢ s
  pub entry : fetch c h ≡ some (hwa (cell_of x s m))
  pub address : fetch s h ≡ some (sockaddr (x.ip_addr))

-- From `a` on the heap holds a list, in the blocks of the given addresses.
abbrev pub Chain : Heap → ℕ → List HwaInfo → List (ℕ × ℕ) → Type 0
Chain h a [] [] = a ≡ 0
Chain h a [] (_ ∷ _) = ⊥
Chain h a (x ∷ xs) [] = ⊥
Chain h a (x ∷ xs) ((c, s) ∷ l) =
    (m : ℕ) × Cell h a x c s m × (owns l c ≡ false) × (owns l s ≡ false) × Chain h m xs l

pub Chain-same :
    (h k : Heap) (a : ℕ) (xs : List HwaInfo) (l : List (ℕ × ℕ))
    → ((b : ℕ) → owns l b ≡ true → fetch b k ≡ fetch b h)
    → Chain h a xs l
    → Chain k a xs l
Chain-same h k a [] [] same q = q
Chain-same h k a [] (_ ∷ l) same q = elim q [ ]
Chain-same h k a (x ∷ xs) [] same q = elim q [ ]
Chain-same h k a (x ∷ xs) ((c, s) ∷ l) same (m, q, oc, os, rest) = (
  m,
  record {
    here = q.here;
    not_null = q.not_null;
    address_not_null = q.address_not_null;
    apart = q.apart;
    entry = same c (ground arith) ∙ q.entry;
    address = same s (ground arith) ∙ q.address;
  },
  oc,
  os,
  Chain-same h k m xs l (λ b o. same b (ground arith)) rest,
)

-- What the walk reads.
pub read-Chain :
    (h : Heap) (a : ℕ) (xs : List HwaInfo) (l : List (ℕ × ℕ))
    → Chain h a xs l
    → read_list (suc (length xs)) a h ≡ some xs
unfolding read_list get_hwa get_sockaddr cell_of info_of
read-Chain h a [] [] q = ground arith
read-Chain h a [] (_ ∷ l) q = elim q [ ]
read-Chain h a (x ∷ xs) [] q = elim q [ ]
read-Chain h a (x ∷ xs) ((c, s) ∷ l) (m, q, oc, os, rest) =
    let go : (a == 0) ≡ false = (let e = q.here in let n = q.not_null in ground arith) in
    rw (go, read_list)
      (rw (q.here, q.entry, read_list)
        (rw (q.address, read_list) (rw (read-Chain h m xs l rest) refl)))

-- One entry and its address are freed.
free_one-Cell :
    (h : Heap) (a c s m : ℕ) (x : HwaInfo)
    → Cell h a x c s m
    → free_one a h ≡ some (m, drop c (drop s h))
unfolding free_one free get_hwa cell_of
free_one-Cell h a c s m x q =
    let real : (c == 0) ≡ false = (let n = q.not_null in ground arith) in
    let real' : (s == 0) ≡ false = (let n = q.address_not_null in ground arith) in
    let apart : (c == s) ≡ false = (let n = q.apart in ground arith) in
    rw (q.here, q.entry, free_one)
      (rw (real', q.address, free_one)
        (rw (fetch-drop c s h, apart, q.entry, free_one) (rw real refl)))

-- The blocks of a list go, and the others stay.
pub free-Chain :
    (h : Heap) (a : ℕ) (xs : List HwaInfo) (l : List (ℕ × ℕ))
    → Chain h a xs l
    → (k : Heap) × (free_hwa_info (suc (length xs)) a h ≡ some k)
      × ((b : ℕ) → fetch b k ≡ (if owns l b then none else fetch b h))
unfolding free_hwa_info
free-Chain h a [] [] q = (h, ground arith, λ b. refl)
free-Chain h a [] (_ ∷ l) q = elim q [ ]
free-Chain h a (x ∷ xs) [] q = elim q [ ]
free-Chain h a (x ∷ xs) ((c, s) ∷ l) (m, q, oc, os, rest) =
    let go : (a == 0) ≡ false = (let e = q.here in let n = q.not_null in ground arith) in
    let h' = drop c (drop s h) in
    let left : (b : ℕ)
        → fetch b h' ≡ (if b == c then none else if b == s then none else fetch b h) =
      λ b. fetch-drop b c (drop s h) ∙ ap (λ y. if b == c then none else y) (fetch-drop b s h) in
    let rest' = Chain-same h h' m xs l (λ b o. left b ∙ ground arith) rest in
    let (k, e, f) = free-Chain h' m xs l rest' in
    (
      k,
      rw (go, free_one-Cell h a c s m x q, free_hwa_info) e,
      λ b. f b ∙ rw (left b) (ground arith),
    )
