-- ===== src/Network/Trail.antt =====
-- The way of an RREQ over several nodes, each of which hears the one before it.
use odr.Prelude.{
  ℕ, ◌≡◌, sym, subst, ap, ◌∙◌, List, [], ◌∷◌, none, some, arith, Option-cases, inl, inr,
}
use odr.Prelude.Int.{ℤ, pos, ◌+ℤ◌}
use odr.Structs.{OdrPack, Entry, type_rreq}
use odr.Platform.{Platform, AddsLast}
use odr.Table.{get_index_from_ip, update_rtbl_entry, update_rreq}
use odr.Table.Keys.{Distinct}
use odr.Table.Valid
use odr.Table.Valid.{update-IsValid}
use odr.Table.Routes.{route, hop_of, best, hop-update_rreq}
use odr.Table.Senders.{Via, update-new}
use odr.Link.Frames.{push_all, flood}
use odr.Node.{Node}
use odr.Odr.Common.{note_sender}
use odr.Odr.Cases.{Ensures}
use odr.Odr.Valid.{IsValid, process_pack-IsValid}
use odr.Odr.Rreq.{count_hop, forward_rreq}
use odr.Odr.Frame.{forward_rreq-keeps}
use odr.Odr.Sends.{Sent-state, Fresh, noted, process_pack-Fresh, rreq_floods}
use odr.Odr.{process_pack}

-- A node on the way, with the source address and the interface of the frame that it hears from the node
-- before it, and those of the reply that it hears from the node behind it.
pub record Relay : Type 1 where
  pub platform : Platform
  pub node : Node
  pub hw : List ℕ
  pub ifindex : ℤ
  pub far_hw : List ℕ
  pub far_ifindex : ℤ

-- The RREQ is new to the node, which knows no way to its source, and none to its destination.
pub record Ready (k : OdrPack) (r : Relay) : Type 0 where
  pub last : AddsLast r.platform
  pub valid : Valid.IsValid r.node.rtbl
  pub fresh : Fresh r.platform k r.node
  pub unknown : route (get_index_from_ip r.platform k.src_can_ip_str) r.node.rtbl ≡ none
  pub silent :
      route
        (get_index_from_ip r.platform k.dest_can_ip_str)
        (noted r.platform k r.hw r.ifindex r.node)
      ≡ none

-- Each node hears what the one before it sends.
abbrev pub Way : OdrPack → List Relay → Type 0
Way k [] = Unit
Way k (r ∷ rs) = Ready k r × Way (count_hop k) rs

-- The node floods the RREQ, counted once, and has a route of the given length to its source, back to where
-- the frame came from.
pub record Passed (k : OdrPack) (hops : ℤ) (r : Relay) : Type 0 where
  pub ret : ℤ
  pub after : Node
  pub back : Entry
  pub runs : process_pack r.platform k r.hw r.ifindex r.node ≡ some (ret, after)
  pub sends : after.sent ≡ push_all (flood (count_hop k) r.ifindex r.node.if_info_list) r.node.sent
  pub known : route (get_index_from_ip r.platform k.src_can_ip_str) after.rtbl ≡ some back
  pub via : Via r.hw r.ifindex back
  pub length : back.hop ≡ hops
  pub distinct : Distinct after.rtbl.entries
  pub valid : IsValid after
  pub unseen : route (get_index_from_ip r.platform k.dest_can_ip_str) after.rtbl ≡ none

-- The length grows by one from node to node.
abbrev pub Trail : OdrPack → ℤ → List Relay → Type 0
Trail k hops [] = Unit
Trail k hops (r ∷ rs) = Passed k hops r × Trail (count_hop k) (hops +ℤ pos 1) rs

some_hop : (e : Entry) (h : ℤ) → hop_of (some e) ≡ some h → e.hop ≡ h
some_hop e h q = ground arith

module _ (p : Platform) (last : AddsLast p) (k : OdrPack) (hw : List ℕ) (i : ℤ) (n : Node) where
  -- What the RREQ leaves at a node that knew no way to its source.
  new_route :
      k.type ≡ type_rreq
      → route (get_index_from_ip p k.src_can_ip_str) n.rtbl ≡ none
      → (e : Entry) × (route (get_index_from_ip p k.src_can_ip_str) (noted p k hw i n) ≡ some e)
        × Via hw i e
        × (e.hop ≡ k.rreq.hop)
  unfolding update_rtbl_entry
  new_route t gone =
      let j = get_index_from_ip p k.src_can_ip_str in
      let same : noted p k hw i n ≡ update_rreq p k hw i n.rtbl = rw t in
      let q : hop_of (route j (noted p k hw i n)) ≡ some (k.rreq.hop) =
        ap (λ u. hop_of (route j u)) same
        ∙ hop-update_rreq p last k hw i n.rtbl
        ∙ ap (λ o. best (hop_of o) k.rreq.hop) gone in
      elim (Option-cases (route j (noted p k hw i n))) [
        | inl out ↦ absurd (ground (arith, q, out))
        | inr (e, f) ↦ (
          e,
          f,
          update-new p last k hw i n.rtbl j e gone f,
          some_hop e k.rreq.hop (ap hop_of (sym f) ∙ q),
        )
      ]

pub Ready-Passed : (k : OdrPack) (r : Relay) → Ready k r → Passed k k.rreq.hop r
unfolding note_sender
Ready-Passed k r y =
    let p = r.platform in
    let (l, go) = process_pack-Fresh p k r.hw r.ifindex r.node y.fresh in
    let u = record (note_sender p k r.hw r.ifindex r.node) { latest_rreq = l } in
    let keeps = forward_rreq-keeps p k r.ifindex u in
    let held =
      update-IsValid p y.last k r.hw r.ifindex r.node.rtbl y.fresh.relayed.in_range y.valid in
    let (e, f, via, hops) =
      new_route p y.last k r.hw r.ifindex r.node y.fresh.relayed.is_rreq y.unknown in
    record {
      ret = (forward_rreq p k r.ifindex u).0;
      after = (forward_rreq p k r.ifindex u).1;
      back = e;
      runs = go;
      sends =
          Sent-state (process_pack p k r.hw r.ifindex r.node) (forward_rreq p k r.ifindex u) _ go
            (rreq_floods p k r.hw r.ifindex r.node y.fresh (inl y.silent));
      known = ap (route (get_index_from_ip p k.src_can_ip_str)) keeps.0 ∙ f;
      via = via;
      length = hops;
      distinct = subst (λ t. Distinct t.entries) (sym keeps.0) held.distinct;
      valid = subst (Ensures IsValid) go (
          process_pack-IsValid p y.last k r.hw r.ifindex r.node
            (record { table = y.valid; slots = y.fresh.slots }));
      unseen = ap (route (get_index_from_ip p k.dest_can_ip_str)) keeps.0 ∙ y.silent;
    }

pub Way-Trail : (k : OdrPack) (rs : List Relay) → Way k rs → Trail k k.rreq.hop rs
unfolding count_hop
Way-Trail k [] w = tt
Way-Trail k (r ∷ rs) w = (Ready-Passed k r w.0, Way-Trail (count_hop k) rs w.1)
