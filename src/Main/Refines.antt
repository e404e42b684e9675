-- ===== src/Main/Refines.antt =====
-- The loop as a machine on the map of routes.
use odr.Prelude.{
  All, ℕ, ◌≡◌, ◌≢◌, refl, sym, subst, List, [], ◌∷◌, Option, none, some, Bool-cases, inl, inr,
  if◌then◌else◌,
}
use odr.Prelude.Int.{◌==ℤ◌, ==ℤ_iff}
use odr.Structs.{type_rreq, type_rrep, type_data}
use odr.Platform.{Platform, AddsLast}
use odr.Table.{get_index_from_ip}
use odr.Table.Map.{Map, view, updated_map}
use odr.Table.Refines.{update-refines}
use odr.Table.Valid
use odr.Table.Valid.{update-IsValid}
use odr.Link.Sent.{Anyone}
use odr.Link.Frames.{Healthy}
use odr.Node.{Node}
use odr.Odr.Cases.{Ensures, over_limit, not_over}
use odr.Odr.Common.{note_sender}
use odr.Odr.Frame.{SameTables}
use odr.Odr.Kept.{process_pack-exact}
use odr.Odr.Valid.{IsValid}
use odr.Odr.Safe.{Slot}
use odr.Odr.{process_pack}
use odr.Main.{FrameIn, Round, get_can_ip, Progress, running, failed, fault, on_frame, round, loop}
use odr.Main.Induction.{Leaves, From-Anyone, Ensures-Leaves, then-Leaves, on_datagram-Leaves}
use odr.Main.Loop.{RoundOk, loop-runs}
use odr.Main.Routes.{handle_request-table}

module _ (p : Platform) where
  -- A frame changes the map, unless its packet has come too far.
  abbrev pub hear_map : Option FrameIn → Map → Map
  hear_map none t = t
  hear_map (some f) t =
      if over_limit f.packet then t else updated_map p f.packet f.h_source f.sll_ifindex t

  -- The map after the frames of the rounds.
  abbrev pub map_after : List Round → Map → Map
  map_after [] t = t
  map_after (r ∷ rs) t = map_after rs (hear_map r.frame t)

  -- A valid table that stands for the map.
  abbrev Stands : Map → Node → Type 0
  Stands t n = (view n.rtbl ≡ t) × Valid.IsValid n.rtbl

  SameTables-Stands : (t : Map) (n m : Node) → SameTables n m → Stands t n → Stands t m
  SameTables-Stands t n m s h = subst (λ x. (view x ≡ t) × Valid.IsValid x) (sym s.0) h

  unheard :
      (f : FrameIn)
      → f.packet.type ≢ type_rreq
      → f.packet.type ≢ type_rrep
      → f.packet.type ≢ type_data
      → (t : Map) → t ≡ hear_map (some f) t
  unfolding updated_map
  unheard f a b c t =
      let k = f.packet in
      elim (Bool-cases (over_limit k)) [
        | inl over ↦ rw over refl
        | inr near ↦ elim (Bool-cases (k.type ==ℤ type_rreq)) [
          | inl x ↦ absurd (a ((==ℤ_iff k.type type_rreq).0 x))
          | inr x ↦ elim (Bool-cases (k.type ==ℤ type_rrep)) [
            | inl y ↦ absurd (b ((==ℤ_iff k.type type_rrep).0 y))
            | inr y ↦ elim (Bool-cases (k.type ==ℤ type_data)) [
              | inl z ↦ absurd (c ((==ℤ_iff k.type type_data).0 z))
              | inr z ↦ rw (near, x, y, z) refl
            ]
          ]
        ]
      ]

  module _ (last : AddsLast p) where
    process_pack-Stands :
        (f : FrameIn) (n : Node)
        → Valid.IsValid n.rtbl
        → Ensures
            (Stands (hear_map (some f) (view n.rtbl)))
            (process_pack p f.packet f.h_source f.sll_ifindex n)
    unfolding note_sender
    process_pack-Stands f n v =
        let k = f.packet in
        process_pack-exact p (Stands (hear_map (some f) (view n.rtbl)))
          (SameTables-Stands (hear_map (some f) (view n.rtbl))) k (λ u x l e new g h. h) f.h_source
          f.sll_ifindex n (λ over. (rw over refl, v)) (λ a b c. (unheard f a b c (view n.rtbl), v))
          (λ r. (
            rw (not_over k r) (update-refines p last k f.h_source f.sll_ifindex n.rtbl v.distinct),
            update-IsValid p last k f.h_source f.sll_ifindex n.rtbl r v,
          ))

    on_frame-Stands :
        (f : Option FrameIn) (n : Node)
        → Valid.IsValid n.rtbl
        → Leaves (Stands (hear_map f (view n.rtbl))) (on_frame p f n)
    unfolding on_frame
    on_frame-Stands none n v = (refl, v)
    on_frame-Stands (some f) n v =
        Ensures-Leaves (Stands (hear_map (some f) (view n.rtbl)))
          (process_pack p f.packet f.h_source f.sll_ifindex n) (process_pack-Stands f n v)

    round-Stands :
        (r : Round) (n : Node)
        → Valid.IsValid n.rtbl
        → Leaves (Stands (hear_map r.frame (view n.rtbl))) (round p r n)
    unfolding round
    round-Stands r n v =
        let P = Stands (hear_map r.frame (view n.rtbl)) in
        then-Leaves p P r.datagram
          (λ m h.
            on_datagram-Leaves p P Anyone
              (λ addr q u m s e h.
                subst (λ x. (view x ≡ hear_map r.frame (view n.rtbl)) × Valid.IsValid x)
                  (sym (handle_request-table p addr q u m e)) h)
              r.datagram m (From-Anyone r.datagram) h)
          (on_frame p r.frame n) (on_frame-Stands r.frame n v)

    loop-Stands :
        (rs : List Round) (n : Node)
        → Valid.IsValid n.rtbl
        → Leaves (Stands (map_after rs (view n.rtbl))) (loop p rs n)
    unfolding loop
    loop-Stands [] n v = (refl, v)
    loop-Stands (r ∷ rs) n v = go (round p r n) (round-Stands r n v) (loop-Stands rs)
      where
        go :
            (s : Progress)
            → Leaves (Stands (hear_map r.frame (view n.rtbl))) s
            → ((m : Node)
                → Valid.IsValid m.rtbl
                → Leaves (Stands (map_after rs (view m.rtbl))) (loop p rs m))
            → Leaves
                (Stands (map_after rs (hear_map r.frame (view n.rtbl))))
                (elim s [ running m ↦ loop p rs m | failed m ↦ failed m | fault ↦ fault ])
        go (running m) (e, w) rest =
            subst (λ t. Leaves (Stands (map_after rs t)) (loop p rs m)) e (rest m w)
        go (failed m) h rest = tt
        go fault h rest = tt

module _ (p : Platform) (last : AddsLast p) (here : Slot (get_index_from_ip p (get_can_ip p)))
    (up : Healthy p) (name : List ℕ) (named : p.gethostname ≡ some name) where
  -- The loop implements a machine on the map of routes: over any sequence of rounds it goes on,
  -- and the map that its table then stands for is the one that the map's own specification makes
  -- of the frames, in their order, passing over those above the hop limit. Requests, sends and
  -- the rest of the state have no part in it. The state is valid at first, the frames have known
  -- types and sources with a slot, no datagram is an error, the node has a host name and a slot
  -- of its own, list_add adds last and every send succeeds.
  pub loop-refines :
      (rs : List Round) (n : Node)
      → All (RoundOk p last here) rs
      → IsValid n
      → (m : Node) × (loop p rs n ≡ running m) × (view m.rtbl ≡ map_after p rs (view n.rtbl))
  loop-refines rs n ok v =
      let (m, go, w) = loop-runs p last here up name named rs n ok v in
      let (e, _) =
        subst (Leaves (Stands p (map_after p rs (view n.rtbl)))) go
          (loop-Stands p last rs n v.table) in
      (m, go, e)
