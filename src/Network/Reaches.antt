-- ===== src/Network/Reaches.antt =====
-- How far an RREQ comes, and the RREP back: runs of the network that take them along a path of nodes.
use odr.Prelude.{
  ◌≡◌, ◌≢◌, ◌∙◌, ap, refl, sym, subst, List, [], none, some, false, arith, ℕ, inl, inr,
}
use odr.Prelude.Int.{ℤ, pos, ◌==ℤ◌, ==ℤ_refl, eq_of_parts}
use odr.Structs.{OdrPack, Entry, Out, type_rrep}
use odr.Platform.{Platform, AddsLast}
use odr.Table.{get_index_from_ip, rrep_offer}
use odr.Table.Valid.{InRange}
use odr.Table.Keys.{Distinct}
use odr.Table.Map.{Map, entry_of, learned, updated_map}
use odr.Table.Refines.{update-refines}
use odr.Table.Routes.{route}
use odr.Table.Senders.{Via}
use odr.Link.Frames.{push_all, flood, payload_frames}
use odr.Node.{Node}
use odr.Odr.Common.{is_self_src, note_sender}
use odr.Odr.Rreq.{count_hop}
use odr.Odr.Rrep.{process_rrep, relayed_rrep}
use odr.Odr.Cases.{Ensures}
use odr.Odr.Frame.{relay_rrep-keeps}
use odr.Odr.Answers.{process_pack-rrep, rrep_relayed}
use odr.Odr.Sends.{Sent, noted}
use odr.Odr.Runs.{Sent-Runs, Runs-Ensures}
use odr.Odr.Safe.{Slot}
use odr.Odr.Total.{KnownType}
use odr.Odr.Valid.{IsValid}
use odr.Odr.{process_pack}
use odr.Main.{running, on_frame}
use odr.Main.Loop.{on_frame-runs}
use odr.Network.{World, Net, received, Reach}
use odr.Network.Path.{Stop, Apart, Learned, Arrives, Reached, Chain, Flow, along}
use odr.Network.Progress.{Sane}
use odr.Network.Steps.{on_frame-Ensures}
use odr.Table.Others.{rrep_other}
use odr.Network.Trail.{Relay, Ready, Ready-Passed}

-- The frames by which a node sends an RREP on.
abbrev pub homeward : Platform → OdrPack → Node → List Out
homeward p a n =
    payload_frames (relayed_rrep a) n.if_info_list
      (route (get_index_from_ip p a.src_can_ip_str) n.rtbl)

-- A node that did not ask, and knows a way to the node that did, but none to the one that answers.
pub record Waiting (p : Platform) (a : OdrPack) (n : Node) : Type 0 where
  pub valid : IsValid n
  pub is_rrep : a.type ≡ type_rrep
  pub in_range : InRange a
  pub elsewhere : is_self_src p a.src_can_ip_str ≢ pos 1
  pub slot : Slot (get_index_from_ip p a.src_can_ip_str)
  pub back : Entry
  pub known : route (get_index_from_ip p a.src_can_ip_str) n.rtbl ≡ some back
  pub unknown : route (get_index_from_ip p a.dest_can_ip_str) n.rtbl ≡ none

module _ (p : Platform) (last : AddsLast p) (a : OdrPack) (hw : List ℕ) (i : ℤ) (n : Node) where
  -- An RREP makes a route to its destination, if there was none.
  rrep_route :
      Distinct n.rtbl.entries
      → a.type ≡ type_rrep
      → route (get_index_from_ip p a.dest_can_ip_str) n.rtbl ≡ none
      → (e : Entry) × (route (get_index_from_ip p a.dest_can_ip_str) (noted p a hw i n) ≡ some e)
        × Via hw i e
        × (e.hop ≡ a.rrep.hop)
  unfolding updated_map rrep_offer learned
  rrep_route v t gone =
      let j = get_index_from_ip p a.dest_can_ip_str in
      let o = rrep_offer p a hw i in
      (
        entry_of o p.heap_bytes a.rrep.hop (p.clock n.rtbl.reads),
        ap (λ (x : Map). x.find j) (update-refines p last a hw i n.rtbl v)
            ∙ rw t (rw (gone, learned) (rw (==ℤ_refl j) refl)),
        (refl, refl),
        refl,
      )

  rrep-table :
      a.type ≡ type_rrep
      → InRange a
      → is_self_src p a.src_can_ip_str ≢ pos 1
      → Ensures (λ m. m.rtbl ≡ noted p a hw i n) (process_pack p a hw i n)
  unfolding process_rrep note_sender
  rrep-table t r away =
      let far : (is_self_src p a.src_can_ip_str ==ℤ pos 1) ≡ false =
        ground (arith, eq_of_parts (is_self_src p a.src_can_ip_str) (pos 1)) in
      rw (process_pack-rrep p a hw i n t r) (
        rw (far, process_rrep)
          (relay_rrep-keeps p (is_self_src p a.src_can_ip_str) a (note_sender p a hw i n)).0)

  -- A waiting node keeps its way back, and sends the RREP on by it.
  rrep_homeward : Waiting p a n → Sent (process_pack p a hw i n) (push_all (homeward p a n) n.sent)
  rrep_homeward x =
      let j = get_index_from_ip p a.src_can_ip_str in
      let apart : j ≢ get_index_from_ip p a.dest_can_ip_str = λ e.
        (let h : some x.back ≡ none = sym x.known ∙ ap (λ l. route l n.rtbl) e ∙ x.unknown in
          absurd (ground (arith, h))) in
      let found : route j (noted p a hw i n) ≡ some x.back =
        rrep_other p last a hw i n.rtbl j x.valid.table.distinct x.is_rrep apart ∙ x.known in
      subst (Sent (process_pack p a hw i n)) (rw (found, x.known))
        (rrep_relayed p a hw i n x.is_rrep x.in_range x.elsewhere)

  Waiting-Ensures :
      Waiting p a n
      → (l : Stop) → l.frame.h_source ≡ hw
      → l.ifindex ≡ i
      → Ensures
          (λ m.
            (m.sent ≡ push_all (homeward p a n) n.sent)
            × Learned p a.dest_can_ip_str a.rrep.hop l m)
          (process_pack p a hw i n)
  Waiting-Ensures x l same same' =
      let y = Sent-Runs (process_pack p a hw i n) _ (rrep_homeward x) in
      let table =
        Runs-Ensures (λ m. m.rtbl ≡ noted p a hw i n) (process_pack p a hw i n) _ y
          (rrep-table x.is_rrep x.in_range x.elsewhere) in
      let (e, f, via, hops) = rrep_route x.valid.table.distinct x.is_rrep x.unknown in
      rw y.runs (y.sends, (e, ap (route _) table ∙ f, (via.0 ∙ sym same, via.1 ∙ sym same'), hops))

module _ (w : World) where
  abbrev pub stop_at : Node → Stop → Relay
  stop_at n l = record {
    platform = w.platform l.node;
    node = n;
    hw = l.frame.h_source;
    ifindex = l.ifindex;
    far_hw = [];
    far_ifindex = pos 0;
  }

  -- An RREQ along a path.
  abbrev pub FloodChain : Net → OdrPack → List Stop → Type 0
  FloodChain =
      Chain w count_hop (λ k l n. Ready k (stop_at n l))
        (λ k l n. flood (count_hop k) l.ifindex n.if_info_list)

  -- An RREP along a path.
  abbrev pub ReplyChain : Net → OdrPack → List Stop → Type 0
  ReplyChain =
      Chain w relayed_rrep (λ a l n. Waiting (w.platform l.node) a n)
        (λ a l n. homeward (w.platform l.node) a n)

  module _ (sane : Sane w) where
    -- A frame of a known type whose source has a slot leaves a node in its loop.
    goes_on :
        (P : Node → Type 0) (l : Stop) (k : OdrPack) (n : Node)
        → l.frame.packet ≡ k
        → KnownType k
        → Slot (get_index_from_ip (w.platform l.node) k.src_can_ip_str)
        → IsValid n
        → Ensures P (process_pack (w.platform l.node) k l.frame.h_source l.ifindex n)
        → (m : Node) × (on_frame (w.platform l.node) (some (received l.frame l.ifindex)) n
            ≡ running m)
          × P m
    goes_on P l k n e type slot v h =
        let p = w.platform l.node in
        let f = received l.frame l.ifindex in
        let known =
          subst (λ q. KnownType q × Slot (get_index_from_ip p q.src_can_ip_str)) (sym e)
            (type, slot) in
        let (m, go, _) =
          on_frame-runs p (sane.last l.node) (sane.own l.node) (sane.up l.node) (sane.name l.node)
            (sane.named l.node) (some f) n known v in
        (
          m,
          go,
          on_frame-Ensures p P f n m
              (subst (λ q. Ensures P (process_pack p q f.h_source f.sll_ifindex n)) (sym e) h) go,
        )

    flood-Flow :
        Flow w count_hop
          (λ k l n. Ready k (stop_at n l))
          (λ k l n. flood (count_hop k) l.ifindex n.if_info_list)
          (λ k. k.src_can_ip_str)
          (λ k. k.rreq.hop)
    unfolding count_hop
    flood-Flow = record {
      same_ip = λ k. refl;
      counts = λ k. refl;
      runs = λ k l n e ready.
          (let passed = Ready-Passed k (stop_at n l) ready in
            let (m, go, (sends, found)) =
              goes_on
                (λ m.
                  (m.sent ≡ push_all (flood (count_hop k) l.ifindex n.if_info_list) n.sent)
                  × Learned (w.platform l.node) k.src_can_ip_str k.rreq.hop l m)
                l k n e (inl ready.fresh.relayed.is_rreq) ready.fresh.slot
                (record { table = ready.valid; slots = ready.fresh.slots })
                (rw passed.runs
                  (passed.sends, (passed.back, passed.known, passed.via, passed.length))) in
            (m, go, sends, found));
    }

    reply-Flow :
        Flow w relayed_rrep
          (λ a l n. Waiting (w.platform l.node) a n)
          (λ a l n. homeward (w.platform l.node) a n)
          (λ a. a.dest_can_ip_str)
          (λ a. a.rrep.hop)
    unfolding relayed_rrep
    reply-Flow = record {
      same_ip = λ a. refl;
      counts = λ a. refl;
      runs = λ a l n e x.
          (let (m, go, (sends, found)) =
              goes_on
                (λ m.
                  (m.sent ≡ push_all (homeward (w.platform l.node) a n) n.sent)
                  × Learned (w.platform l.node) a.dest_can_ip_str a.rrep.hop l m)
                l a n e (inr (inl x.is_rrep)) x.slot x.valid
                (Waiting-Ensures (w.platform l.node) (sane.last l.node) a l.frame.h_source l.ifindex
                  n x l refl refl) in
            (m, go, sends, found));
    }

    -- An RREQ can get along any path of distinct nodes: from a state in which a node has sent it
    -- and the first node of the path hears that frame, there is a run of the network after which
    -- every node on the path has a route to the source, by the source address and the interface
    -- of the frame that it heard, whose hop count is the one of the RREQ at the first node and
    -- one more for each node in between. Each further node hears one of the frames in which the
    -- node before it floods the RREQ; to each node the RREQ is new, within the hop limit, not
    -- answered and for another node, its source has a slot, no route to the source or the
    -- destination is known and the table is valid. At each node of the network list_add adds
    -- last, every send succeeds, the node has a host name and a slot of its own, and the name
    -- service gives a slot for the address that each node writes into its packets.
    pub flood_reaches :
        (c : Net) (u : ℕ) (k : OdrPack) (ls : List Stop)
        → Arrives w (c u).sent u ls
        → FloodChain c k ls
        → Apart ls
        → (d : Net) × Reach w c d × Reached w d k.src_can_ip_str k.rreq.hop ls
    flood_reaches c u k ls a h apart =
        let (d, run, reached, _) = along w _ _ _ _ _ flood-Flow c u k ls a h apart in
        (d, run, reached)

    -- The RREP can get back along any path of distinct nodes: from a state in which a node has
    -- sent it and the first node of the path hears that frame, there is a run of the network
    -- after which every node on the path has a route to the node that answers, by the source
    -- address and the interface of the frame that it heard, whose hop count is the one of the
    -- RREP at the first node and one more for each node in between. Each further node hears one
    -- of the frames that the node before it sends to the next hop of its own route to the node
    -- that asked; each node has a valid state and such a route, but none to the node that
    -- answers, is not the one that asked, the RREP is within the hop limit and its source has a
    -- slot. At each node of the network list_add adds last, every send succeeds, the node has a
    -- host name and a slot of its own, and the name service gives a slot for the address that
    -- each node writes into its packets.
    pub reply_reaches :
        (c : Net) (u : ℕ) (a : OdrPack) (ls : List Stop)
        → Arrives w (c u).sent u ls
        → ReplyChain c a ls
        → Apart ls
        → (d : Net) × Reach w c d × Reached w d a.dest_can_ip_str a.rrep.hop ls
    reply_reaches c u a ls s h apart =
        let (d, run, reached, _) = along w _ _ _ _ _ reply-Flow c u a ls s h apart in
        (d, run, reached)
