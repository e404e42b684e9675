-- ===== src/Hwaddrs/Grown.antt =====
-- The loop of `get_hw_addrs`, which links an entry to the list in each round.
use odr.Prelude.{
  ℕ, ◌≡◌, ◌≢◌, refl, ap, ◌∙◌, true, false, List, [], ◌∷◌, none, some, arith, ◌==◌, Bool-cases, inl,
  inr,
}
use odr.Hwaddrs.{Ifreq, HwaInfo, cut_alias, hwa_of, hwa_list}
use odr.Hwaddrs.Heap.{
  Heap, Block, Listing, at_hwa_next, hwa, sockaddr, fetch, get_hwa, link, cell_of, list_one,
  list_all,
}
use odr.Hwaddrs.Fetch.{
  fetch-apart, after_round, round-apart, round-entry, round-address, round-last, round-others,
  round-unused,
}
use odr.Hwaddrs.Chain.{owns, Chain}

-- `Calloc` gives a block that is not in use, and not NULL.
pub record Allocates (calloc : Heap → ℕ) : Type 0 where
  pub not_null : (h : Heap) → calloc h ≢ 0
  pub unused : (h : Heap) → fetch (calloc h) h ≡ none

-- The addresses of a list that are new to a heap.
abbrev pub New : Heap → List (ℕ × ℕ) → Type 0
New h l = (b : ℕ) → owns l b ≡ true → fetch b h ≡ none

pub not_owned :
    (h : Heap) (l : List (ℕ × ℕ)) (b : ℕ) (x : Block)
    → New h l
    → fetch b h ≡ some x
    → owns l b ≡ false
not_owned h l b x new e = elim (Bool-cases (owns l b)) [
  | inl own ↦ absurd (let f = new b own in cc)
  | inr other ↦ other
]

pub New-cons :
    (h : Heap) (a t : ℕ) (l : List (ℕ × ℕ))
    → fetch a h ≡ none
    → fetch t h ≡ none
    → ((b : ℕ) → owns l b ≡ true → fetch b h ≡ none)
    → New h ((a, t) ∷ l)
New-cons h a t l ea et rest b own = elim (Bool-cases (b == a)) [
  | inl same ↦ (let q : b ≡ a = ground arith in ap (λ z. fetch z h) q ∙ ea)
  | inr other ↦ elim (Bool-cases (b == t)) [
    | inl same ↦ (let q : b ≡ t = ground arith in ap (λ z. fetch z h) q ∙ et)
    | inr neither ↦ rest b (ground arith)
  ]
]

-- The loop went on from the entry `c`, whose fields are `x`, and linked the entries `xs` to it.
pub record Grown (h : Heap) (c s head : ℕ) (x : HwaInfo) (xs : List HwaInfo) (u : Listing)
    : Type 0 where
  pub blocks : List (ℕ × ℕ)
  pub next : ℕ
  pub last : fetch c u.heap ≡ some (hwa (cell_of x s next))
  pub chain : Chain u.heap next xs blocks
  pub others : (b : ℕ) → (b == c) ≡ false → owns blocks b ≡ false → fetch b u.heap ≡ fetch b h
  pub new : New h blocks
  pub same : u.hwahead ≡ head

module _ (calloc : Heap → ℕ) (ok : Allocates calloc) where
  -- The heap after one more entry.
  abbrev grown : Heap → ℕ → ℕ → ℕ → HwaInfo → HwaInfo → Heap
  grown h c s a x y =
      let last : Block = hwa (cell_of x s a) in
      let first : Block = hwa (cell_of y 0 0) in
      let t = calloc ((c, last) ∷ (a, first) ∷ h) in
      after_round h c a t last first (hwa (cell_of y t 0)) (sockaddr (y.ip_addr))

  list_one-link :
      (item : Ifreq) (lastname : List ℕ) (h : Heap) (c s head : ℕ) (x : HwaInfo)
      → fetch c h ≡ some (hwa (cell_of x s 0))
      → list_one calloc item
          (record { heap = h; hwahead = head; hwapnext = at_hwa_next c; lastname = lastname })
        ≡ some (record {
          heap = grown h c s (calloc h) x (hwa_of lastname item);
          hwahead = head;
          hwapnext = at_hwa_next (calloc h);
          lastname = cut_alias item.ifr_name;
        })
  unfolding list_one link get_hwa fetch cell_of
  list_one-link item lastname h c s head x e =
      let apart = fetch-apart c (calloc h) (hwa (cell_of x s 0)) h e (ok.unused h) in
      rw (apart, e, list_one) refl

  pub grow :
      (items : List Ifreq) (lastname : List ℕ) (h : Heap) (c s head : ℕ) (x : HwaInfo)
      → fetch c h ≡ some (hwa (cell_of x s 0))
      → (u : Listing) × (list_all calloc items
            (record { heap = h; hwahead = head; hwapnext = at_hwa_next c; lastname = lastname })
          ≡ some u)
        × Grown h c s head x (hwa_list lastname items) u
  unfolding list_all hwa_list
  grow [] lastname h c s head x e = (
    _,
    refl,
    record {
      blocks = [];
      next = 0;
      last = e;
      chain = refl;
      others = λ b o q. refl;
      new = λ b q. ground arith;
      same = refl;
    },
  )
  grow (item ∷ items) lastname h c s head x e =
      let a = calloc h in
      let y = hwa_of lastname item in
      let last : Block = hwa (cell_of x s a) in
      let first : Block = hwa (cell_of y 0 0) in
      let t = calloc ((c, last) ∷ (a, first) ∷ h) in
      let entry : Block = hwa (cell_of y t 0) in
      let address : Block = sockaddr (y.ip_addr) in
      let k = grown h c s a x y in
      let ca = fetch-apart c a (hwa (cell_of x s 0)) h e (ok.unused h) in
      let (tc, ta, th) = round-apart h c a t last first entry address (ok.unused _) in
      let at_a = round-entry h c a t last first entry address in
      let at_c = round-last h c a t last first entry address ca tc in
      let at_t = round-address h c a t last first entry address ta in
      let (u, q, g) = grow items (cut_alias item.ifr_name) k a t head y at_a in
      (
        u,
        rw (list_one-link item lastname h c s head x e, list_all) q,
        record {
          blocks = (a, t) ∷ g.blocks;
          next = a;
          last = g.others c ca (not_owned k g.blocks c last g.new at_c) ∙ at_c;
          chain = (
            g.next,
            record {
              here = refl;
              not_null = ok.not_null h;
              address_not_null = ok.not_null ((c, last) ∷ (a, first) ∷ h);
              apart = ground (arith, ta);
              entry = g.last;
              address = g.others t ta (not_owned k g.blocks t address g.new at_t) ∙ at_t;
            },
            not_owned k g.blocks a entry g.new at_a,
            not_owned k g.blocks t address g.new at_t,
            g.chain,
          );
          others = λ b bc own.
              g.others b (ground arith) (ground arith)
              ∙ round-others h c a t last first entry address b (ground arith) (ground arith) bc;
          new =
              New-cons h a t g.blocks (ok.unused h) th
                (λ b own. round-unused h c a t last first entry address b (g.new b own));
          same = g.same;
        },
      )
