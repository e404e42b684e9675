-- ===== src/Odr/Again.antt =====
-- RREQs with an id that no char holds.
use odr.Prelude.{
  ℕ, ◌≡◌, ◌⊎◌, ◌∙◌, List, [], ◌∷◌, some, arith, All, length, Bool-cases, Option-cases, inl, inr,
}
use odr.Prelude.Int.{ℤ, pos, ◌≤ℤ◌, ◌<ℤ◌, ◌==ℤ◌, ==ℤ_iff, ==ℤ_ne}
use odr.Structs.{OdrPack, Entry, minus_one}
use odr.Platform.{Platform}
use odr.Table.{get_index_from_ip}
use odr.Table.Routes.{route}
use odr.Link.Frames.{push_all, flood, unicast}
use odr.Node.{Node}
use odr.Odr.Common.{note_sender, is_self_dest}
use odr.Odr.Rreq.{count_hop, known_rrep, answered_rreq, forward_rreq}
use odr.Odr.Flood.{Relayed, latest_at-char, latest_put-chars, process_pack-relay, relay_new}
use odr.Odr.Frame.{forward_rreq-keeps}
use odr.Odr.Safe.{Slot, latest_at-Slot, latest_put-Slot}
use odr.Odr.Valid.{latest_put-length}
use odr.Odr.Sends.{Sent, Sent-state, Fresh, noted, rreq_floods, rreq_answered}
use odr.Odr.{process_pack}

module _ (p : Platform) (k : OdrPack) where
  -- The RREQ goes out, counted, through every interface but the one it came by; or, at a node that knows a
  -- route to its destination, an RREP along that route and then the RREQ, marked as answered, through every
  -- interface.
  abbrev pub SentOn : List ℕ → ℤ → Node → Node → Type 0
  SentOn hw i n m =
      (m.sent ≡ push_all (flood (count_hop k) i n.if_info_list) n.sent)
      ⊎ ((e : Entry) × (route (get_index_from_ip p k.dest_can_ip_str) (noted p k hw i n) ≡ some e)
          × (m.sent
              ≡ push_all
                  (flood (answered_rreq (known_rrep (count_hop k) e.hop)) minus_one n.if_info_list)
                  (push_all
                    (unicast (known_rrep (count_hop k) e.hop) e.next_hop_hwaddr e.if_no
                      n.if_info_list)
                    n.sent)))

  -- Each of the copies, which come from the given neighbours and interfaces, is sent on.
  abbrev pub AllSentOn : List (List ℕ × ℤ) → Node → Type 0
  AllSentOn [] n = Unit
  AllSentOn ((hw, i) ∷ cs) n =
      (r : ℤ) × (m : Node) × (process_pack p k hw i n ≡ some (r, m))
      × SentOn hw i n m
      × AllSentOn cs m

  Fresh-SentOn :
      (hw : List ℕ) (i : ℤ) (n : Node) (r : ℤ) (m : Node)
      → Fresh p k n
      → process_pack p k hw i n ≡ some (r, m)
      → SentOn hw i n m
  Fresh-SentOn hw i n r m c go =
      let at : (s : _) → Sent (process_pack p k hw i n) s → m.sent ≡ s =
        λ s h. Sent-state (process_pack p k hw i n) (r, m) s go h in
      elim (Option-cases (route (get_index_from_ip p k.dest_can_ip_str) (noted p k hw i n))) [
        | inl gone ↦ inl (at _ (rreq_floods p k hw i n c (inl gone)))
        | inr (e, there) ↦ elim (Bool-cases (n.forced_discovery ==ℤ pos 1)) [
          | inl forced ↦ inl (
              at _ (rreq_floods p k hw i n c (inr ((==ℤ_iff n.forced_discovery (pos 1)).0 forced))))
          | inr free ↦ inr (
            e,
            there,
            at _ (rreq_answered p k hw i n e c there (==ℤ_ne n.forced_discovery (pos 1) free)),
          )
        ]
      ]

  -- However many copies of an RREQ with an id above 127 come to a node, by whatever neighbours
  -- and interfaces, the node sends every one of them on: counted, through every interface but the
  -- one it came by, or, with a route to the destination, by an RREP along that route and the
  -- RREQ, marked as answered, through every interface. The RREQ is within the hop limit, not
  -- answered and for another node, its source has a slot, and `latest_rreq` has its eleven, which
  -- hold chars.
  pub relay_again :
      (cs : List (List ℕ × ℤ)) (n : Node)
      → Relayed p k
      → pos 127 <ℤ k.rreq.broadcast_id
      → Slot (get_index_from_ip p k.src_can_ip_str)
      → length n.latest_rreq ≡ 11
      → All (λ x. x ≤ℤ pos 127) n.latest_rreq
      → AllSentOn cs n
  unfolding note_sender
  relay_again [] n c big slot slots chars = tt
  relay_again ((hw, i) ∷ cs) n c big slot slots chars =
      let j = get_index_from_ip p k.src_can_ip_str in
      let (x, e) = latest_at-Slot j n.latest_rreq slot slots in
      let (l, f) = latest_put-Slot j k.rreq.broadcast_id n.latest_rreq slot slots in
      let above : x <ℤ k.rreq.broadcast_id =
        (let small : x ≤ℤ pos 127 = latest_at-char j n.latest_rreq x chars e in omega arith) in
      let u = record (note_sender p k hw i n) { latest_rreq = l } in
      let m = (forward_rreq p k i u).1 in
      let go : process_pack p k hw i n ≡ some (forward_rreq p k i u) =
        process_pack-relay p k hw i n c
        ∙ relay_new p (is_self_dest p k.dest_can_ip_str) k i (note_sender p k hw i n) e f above in
      let kept = (forward_rreq-keeps p k i u).1 in
      (
        (forward_rreq p k i u).0,
        m,
        go,
        Fresh-SentOn hw i n (forward_rreq p k i u).0 m
            (record {
              relayed = c;
              slot = slot;
              slots = slots;
              latest = x;
              recorded = e;
              above = above;
            })
            go,
        relay_again cs m c big slot
            (rw kept (latest_put-length j k.rreq.broadcast_id n.latest_rreq l f ∙ slots))
            (rw kept (latest_put-chars j k.rreq.broadcast_id n.latest_rreq l chars f)),
      )
