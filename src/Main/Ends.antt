-- ===== src/Main/Ends.antt =====
-- How the loop ends: a frame of an unknown type, an error of a datagram, an access out of bounds.
use odr.Prelude.{
  ℕ, ◌≡◌, ◌≢◌, ◌↔◌, refl, sym, ◌∙◌, true, List, length, ltb, none, some, arith, Bool-cases, inl,
  inr, if◌then◌else◌,
}
use odr.Prelude.Int.{ℤ, pos, negsuc, ◌+ℤ◌, ◌==ℤ◌, ==ℤ_iff}
use odr.Structs.{OdrPack, OdrReq, type_rreq, type_rrep, type_data, minus_one}
use odr.Platform.{Platform, AddsLast}
use odr.Table.{get_index_from_ip}
use odr.Table.Valid.{InRange}
use odr.Link.Frames.{Healthy}
use odr.Node.{Node, latest_put}
use odr.Odr.Cases.{over_limit, in_range}
use odr.Odr.Common.{Outcome}
use odr.Odr.Safe.{Succeeds, Slot}
use odr.Odr.Total.{KnownType, process_pack-Succeeds}
use odr.Odr.Valid.{IsValid}
use odr.Odr.{process_pack}
use odr.Main.{
  get_can_ip, FrameIn, running, failed, fault, handle_request, next_rreq, read_request, on_frame,
}
use odr.Main.Request.{handle_request-IsValid}

module _ (p : Platform) where
  unknown_type-fails :
      (k : OdrPack) (hw : List ℕ) (i : ℤ) (n : Node)
      → InRange k
      → ¬ (KnownType k)
      → process_pack p k hw i n ≡ some (minus_one, n)
  unfolding process_pack
  unknown_type-fails k hw i n r u = elim (Bool-cases (k.type ==ℤ type_rreq)) [
    | inl a ↦ absurd (u (inl ((==ℤ_iff k.type type_rreq).0 a)))
    | inr a ↦ elim (Bool-cases (k.type ==ℤ type_rrep)) [
      | inl b ↦ absurd (u (inr (inl ((==ℤ_iff k.type type_rrep).0 b))))
      | inr b ↦ elim (Bool-cases (k.type ==ℤ type_data)) [
        | inl c ↦ absurd (u (inr (inr ((==ℤ_iff k.type type_data).0 c))))
        | inr c ↦ ground arith
      ]
    ]
  ]

  over_limit-ignored :
      (k : OdrPack) (hw : List ℕ) (i : ℤ) (n : Node)
      → over_limit k ≡ true
      → process_pack p k hw i n ≡ some (pos 1, n)
  unfolding process_pack
  over_limit-ignored k hw i n h = rw h

  module _ (last : AddsLast p) (up : Healthy p) (name : List ℕ) (named : p.gethostname ≡ some name)
      (f : FrameIn) (n : Node) (v : IsValid n)
      (slot : Slot (get_index_from_ip p f.packet.src_can_ip_str)) where
    known-runs : KnownType f.packet → ¬ ((m : Node) × (on_frame p (some f) n ≡ failed m))
    unfolding on_frame
    known-runs t (m, h) =
        runs (process_pack p f.packet f.h_source f.sll_ifindex n)
          (process_pack-Succeeds p last up name named f.packet f.h_source f.sll_ifindex n t slot v)
          h
      where
        runs :
            (o : Outcome)
            → Succeeds o
            → (elim o [
              | none ↦ fault
              | some (ret, m) ↦ if ret ==ℤ minus_one then failed m else running m
            ])
              ≢ failed m
        runs none s e = absurd s
        runs (some (ret, u)) s e = absurd (ground arith)

    -- A frame ends the loop by a failure exactly if its packet is within the hop limit and of no
    -- known type, from a valid state, where list_add adds last, every send succeeds, the node has
    -- a host name and the source has a slot.
    pub on_frame-fails :
        ((m : Node) × (on_frame p (some f) n ≡ failed m))
        ↔ (InRange f.packet × (¬ (KnownType f.packet)))
    unfolding on_frame
    on_frame-fails = (
      λ h. elim (Bool-cases (over_limit f.packet)) [
        | inl over ↦
            let go : on_frame p (some f) n ≡ running n =
              rw (over_limit-ignored f.packet f.h_source f.sll_ifindex n over, on_frame) in
            let e : running n ≡ failed h.0 = sym go ∙ h.1 in cc
        | inr under ↦ (in_range f.packet under, λ t. known-runs t h)
      ],
      λ c. (n, rw (unknown_type-fails f.packet f.h_source f.sll_ifindex n c.0 c.1, on_frame)),
    )

  latest_put-outside : (j x : ℤ) (l : List ℤ) → ¬ (Slot j) → length l ≡ 11 → latest_put j x l ≡ none
  unfolding latest_put
  latest_put-outside (pos i) x l s h = elim (Bool-cases (ltb i (length l))) [
    | inl low ↦ absurd (s (omega arith, ground arith))
    | inr high ↦ rw high
  ]
  latest_put-outside (negsuc i) x l s h = refl

  -- A request ends in an access out of bounds exactly if the node itself has no slot.
  handle_request-none :
      (addr : List ℕ) (r : OdrReq) (n : Node)
      → IsValid n
      → (handle_request p addr r n ≡ none) ↔ (¬ (Slot (get_index_from_ip p (get_can_ip p))))
  unfolding handle_request read_request next_rreq
  handle_request-none addr r n v = (
    λ h s.
        let (m, e, w) = handle_request-IsValid p addr r n v s in
        let q : some m ≡ none = sym e ∙ h in cc,
    λ s. ground (
      arith,
      latest_put-outside (get_index_from_ip p (get_can_ip p)) (n.running_broadcast_no +ℤ pos 1)
          n.latest_rreq s v.slots,
    ),
  )
