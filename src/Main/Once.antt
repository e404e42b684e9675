-- ===== src/Main/Once.antt =====
-- An RREQ that was handled is not sent on again, whatever happens in between.
use odr.Prelude.{
  ℕ, ◌≡◌, ◌≢◌, ◌∙◌, ap, subst, sym, refl, ◌⊎◌, length, List, some, arith, All, Bool-cases, inl, inr,
}
use odr.Prelude.Int.{ℤ, pos, ◌+ℤ◌, ◌≤ℤ◌, ◌<ℤ◌, ◌==ℤ◌, ==ℤ_iff, ==ℤ_ne, to_char-small}
use odr.Structs.{OdrPack, OdrReq}
use odr.Platform.{Platform}
use odr.Table.{get_index_from_ip}
use odr.Node.{Node, latest_at, latest_put}
use odr.Odr.Common.{Outcome, note_sender, is_self_dest}
use odr.Odr.Safe.{Slot}
use odr.Odr.Cases.{Ensures}
use odr.Odr.Frame.{SameTables}
use odr.Odr.Kept.{Records, process_pack-kept}
use odr.Odr.Flood.{
  Relayed, latest_at-put, latest_at-put_other, process_pack-relay, relay_old, relay_records,
}
use odr.Odr.{process_pack}
use odr.Main.{FrameIn, Round, running, get_can_ip, handle_request, loop}
use odr.Main.Asks.{handle_request-latest}
use odr.Main.Induction.{Fits, Leaves, AsksFrom-All, loop-Leaves}
use odr.Link.Sent.{Anyone}

-- The slot `j` holds at least `x`.
abbrev pub Marks : ℤ → ℤ → Node → Type 0
Marks j x n = (y : ℤ) × (latest_at j n.latest_rreq ≡ some y) × (x ≤ℤ y)

-- An RREQ of the slot `j` has an id that a char holds.
abbrev pub Numbered : Platform → ℤ → OdrPack → Type 0
Numbered p j k = get_index_from_ip p k.src_can_ip_str ≡ j → k.rreq.broadcast_id ≤ℤ pos 127

-- What the slot `j` holds when the id of a new RREQ was recorded: the same, or that id.
pub slot_after :
    (p : Platform) (j : ℤ) (k : OdrPack) (n : Node) (z y : ℤ) (l : List ℤ)
    → Numbered p j k
    → latest_at (get_index_from_ip p k.src_can_ip_str) n.latest_rreq ≡ some z
    → z <ℤ k.rreq.broadcast_id
    → latest_put (get_index_from_ip p k.src_can_ip_str) k.rreq.broadcast_id n.latest_rreq ≡ some l
    → latest_at j n.latest_rreq ≡ some y
    → pos 0 ≤ℤ y
    → (u : ℤ) × (latest_at j l ≡ some u) × ((u ≡ y) ⊎ ((y <ℤ u) × (u ≤ℤ pos 127)))
slot_after p j k n z y l small at new wrote e lo =
    let i = get_index_from_ip p k.src_can_ip_str in
    elim (Bool-cases (i ==ℤ j)) [
      | inl hit ↦
          let same : i ≡ j = (==ℤ_iff i j).0 hit in
          let q : some z ≡ some y = sym at ∙ ap (λ s. latest_at s n.latest_rreq) same ∙ e in
          let w : z ≡ y = ground arith in
          let top = small same in
          let more : y <ℤ k.rreq.broadcast_id = subst (λ v. v <ℤ k.rreq.broadcast_id) w new in
          (
            k.rreq.broadcast_id,
            ap (λ s. latest_at s l) (sym same)
                ∙ latest_at-put i k.rreq.broadcast_id n.latest_rreq l wrote
                ∙ ap some (to_char-small k.rreq.broadcast_id (omega arith) top),
            inr (more, top),
          )
      | inr miss ↦ (
        y,
        latest_at-put_other i j k.rreq.broadcast_id n.latest_rreq l (λ s. ==ℤ_ne i j miss (sym s))
              wrote
            ∙ e,
        inl refl,
      )
    ]

-- A request leaves the slots of other nodes alone.
pub handle_request-other_slot :
    (p : Platform) (j : ℤ)
    → j ≢ get_index_from_ip p (get_can_ip p)
    → (addr : List ℕ) (r : OdrReq) (n m : Node) → handle_request p addr r n ≡ some m
    → latest_at j m.latest_rreq ≡ latest_at j n.latest_rreq
handle_request-other_slot p j other addr r n m e =
    latest_at-put_other (get_index_from_ip p (get_can_ip p)) j (n.running_broadcast_no +ℤ pos 1)
      n.latest_rreq m.latest_rreq other (handle_request-latest p addr r n m e)

module _ (p : Platform) (j x : ℤ) where
  SameTables-Marks : (n m : Node) → SameTables n m → Marks j x n → Marks j x m
  SameTables-Marks n m s (y, e, b) = (y, rw (s.1) e, b)

  Records-Marks : (k : OdrPack) → pos 0 ≤ℤ x → Numbered p j k → Records p k (Marks j x)
  Records-Marks k lo small n z l at new wrote (y, e, b) =
      let (u, f, c) = slot_after p j k n z y l small at new wrote e (omega arith) in
      (u, f, elim c [ inl same ↦ rw same b | inr (more, top) ↦ omega arith ])

  process_pack-Marks :
      (f : FrameIn) (n : Node)
      → pos 0 ≤ℤ x
      → Numbered p j f.packet
      → Marks j x n
      → Ensures (Marks j x) (process_pack p f.packet f.h_source f.sll_ifindex n)
  unfolding note_sender
  process_pack-Marks f n lo small h =
      process_pack-kept p (Marks j x) SameTables-Marks f.packet (Records-Marks f.packet lo small)
        f.h_source f.sll_ifindex n h (λ r. h)

  handle_request-Marks :
      j ≢ get_index_from_ip p (get_can_ip p)
      → (addr : List ℕ) (r : OdrReq) (n m : Node) → handle_request p addr r n ≡ some m
      → Marks j x n
      → Marks j x m
  handle_request-Marks other addr r n m e (y, at, b) =
      (y, handle_request-other_slot p j other addr r n m e ∙ at, b)

  loop-Marks :
      (rs : List Round) (n : Node)
      → pos 0 ≤ℤ x
      → j ≢ get_index_from_ip p (get_can_ip p)
      → All (Fits (λ f. Numbered p j f.packet)) rs
      → Marks j x n
      → Leaves (Marks j x) (loop p rs n)
  loop-Marks rs n lo other small h =
      loop-Leaves p (Marks j x) (λ f. Numbered p j f.packet) Anyone
        (λ f m q w. process_pack-Marks f m lo q w)
        (λ addr r u m s e w. handle_request-Marks other addr r u m e w) rs n small (AsksFrom-All rs)
        h

same_state : {r s : ℤ} {u m : Node} → ◌≡◌ {A = Outcome} (some (r, u)) (some (s, m)) → u ≡ m
same_state h = ground arith

module _ (p : Platform) where
  -- What is left by the first copy.
  handled-Marks :
      (k : OdrPack) (hw : List ℕ) (i : ℤ) (n : Node) (s : ℤ) (m : Node)
      → Relayed p k
      → pos 0 ≤ℤ k.rreq.broadcast_id
      → k.rreq.broadcast_id ≤ℤ pos 127
      → Slot (get_index_from_ip p k.src_can_ip_str)
      → length n.latest_rreq ≡ 11
      → process_pack p k hw i n ≡ some (s, m)
      → Marks (get_index_from_ip p k.src_can_ip_str) k.rreq.broadcast_id m
  unfolding note_sender
  handled-Marks k hw i n s m c lo hi slot slots h =
      let (r, u, y, e, at, b) =
        relay_records p (is_self_dest p k.dest_can_ip_str) k i (note_sender p k hw i n) lo hi slot
          slots in
      let same : u ≡ m = same_state (sym (process_pack-relay p k hw i n c ∙ e) ∙ h) in
      (
        y,
        subst (λ v. latest_at (get_index_from_ip p k.src_can_ip_str) v.latest_rreq ≡ some y) same
            at,
        b,
      )

  -- Once a node has handled an RREQ, no later copy of it is ever sent on, whatever frames and
  -- requests the loop handles in between, and however many: the copy only updates the routing
  -- table. Both are unanswered, within the hop limit and for another node; the id is from 0 to
  -- 127 and the copy's is not greater; the source has a slot, which is not the node's own; the
  -- frames in between have ids up to 127 for that slot; and the loop went on.
  pub relay_once_ever :
      (k k' : OdrPack) (hw hw' : List ℕ) (i i' : ℤ) (n : Node) (s : ℤ) (m : Node) (rs : List Round)
      (u : Node)
      → Relayed p k
      → Relayed p k'
      → get_index_from_ip p k'.src_can_ip_str ≡ get_index_from_ip p k.src_can_ip_str
      → k'.rreq.broadcast_id ≤ℤ k.rreq.broadcast_id
      → pos 0 ≤ℤ k.rreq.broadcast_id
      → k.rreq.broadcast_id ≤ℤ pos 127
      → Slot (get_index_from_ip p k.src_can_ip_str)
      → get_index_from_ip p k.src_can_ip_str ≢ get_index_from_ip p (get_can_ip p)
      → length n.latest_rreq ≡ 11
      → process_pack p k hw i n ≡ some (s, m)
      → All (Fits (λ f. Numbered p (get_index_from_ip p k.src_can_ip_str) f.packet)) rs
      → loop p rs m ≡ running u
      → process_pack p k' hw' i' u
        ≡ some (is_self_dest p k'.dest_can_ip_str, note_sender p k' hw' i' u)
  unfolding note_sender
  relay_once_ever k k' hw hw' i i' n s m rs u c c' src id lo hi slot other slots h small go =
      let j = get_index_from_ip p k.src_can_ip_str in
      let x = k.rreq.broadcast_id in
      let (y, at, b) =
        subst (Leaves (Marks j x)) go (
          loop-Marks p j x rs m lo other small (handled-Marks k hw i n s m c lo hi slot slots h)) in
      process_pack-relay p k' hw' i' u c'
      ∙ relay_old p (is_self_dest p k'.dest_can_ip_str) k' i' (note_sender p k' hw' i' u) {x = y}
          (rw src at) (omega arith)
