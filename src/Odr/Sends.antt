-- ===== src/Odr/Sends.antt =====
-- What each handler sends.
use odr.Prelude.{
  subst, ℕ, length, ◌⊎◌, ◌≡◌, ◌≢◌, ap, ◌∙◌, true, false, not, ◌||◌, List, none, some, arith,
}
use odr.Prelude.Int.{ℤ, pos, ◌<ℤ◌, ◌==ℤ◌, eq_of_parts}
use odr.Structs.{OdrPack, Entry, Out, type_rreq, minus_one}
use odr.Platform.{Platform, AddsLast}
use odr.Table.{get_index_from_ip, entry_exists_for_src, Rtbl, update_rtbl_entry}
use odr.Table.Valid.{InRange}
use odr.Table.Routes.{get-route, route, route-known}
use odr.Table.Keys.{update-known_src}
use odr.Table.Walk.{exists-first}
use odr.Link.Frames.{push_all, flood, unicast, broadcast-frames, send-frames}
use odr.Node.{Node, latest_at}
use odr.Odr.Common.{Outcome, note_sender, is_self_dest}
use odr.Odr.Rreq.{
  dest_rrep, known_rrep, answered_rreq, count_hop, answer_rreq, answer_for_dest, forward_rreq,
  process_rreq,
}
use odr.Odr.Rrep.{}
use odr.Odr.Safe.{Slot, latest_put-Slot}
use odr.Odr.Flood.{Relayed, process_pack-relay, relay_new}
use odr.Odr.{process_pack}

module _ (p : Platform) where
  -- A node with no route to the destination, or under forced discovery, sends the RREQ on, counted
  -- once, through every interface but the one it came by.
  forward_floods :
      (k : OdrPack) (i : ℤ) (n : Node)
      → (route (get_index_from_ip p k.dest_can_ip_str) n.rtbl ≡ none) ⊎ (n.forced_discovery ≡ pos 1)
      → (forward_rreq p k i n).1.sent ≡ push_all (flood (count_hop k) i n.if_info_list) n.sent
  unfolding forward_rreq
  forward_floods k i n h =
      let go : (not (entry_exists_for_src (get_index_from_ip p k.dest_can_ip_str) n.rtbl.entries)
            || n.forced_discovery ==ℤ pos 1)
          ≡ true =
        ground (arith, exists-first (get_index_from_ip p k.dest_can_ip_str) n.rtbl.entries) in
      rw (go, forward_rreq) (broadcast-frames p (count_hop k) i n.if_info_list n.sent)

  -- A node with a route sends an RREP along that route, to the destination's next hop, and then the
  -- RREQ, counted twice and marked as answered, through every interface.
  forward_answers :
      (k : OdrPack) (i : ℤ) (n : Node) (e : Entry)
      → route (get_index_from_ip p k.dest_can_ip_str) n.rtbl ≡ some e
      → n.forced_discovery ≢ pos 1
      → let rrep = known_rrep (count_hop k) e.hop in
        (forward_rreq p k i n).1.sent
        ≡ push_all
            (flood (answered_rreq rrep) minus_one n.if_info_list)
            (push_all (unicast rrep e.next_hop_hwaddr e.if_no n.if_info_list) n.sent)
  unfolding forward_rreq answer_for_dest count_hop
  forward_answers k i n e h f =
      let stay : (not (entry_exists_for_src (get_index_from_ip p k.dest_can_ip_str) n.rtbl.entries)
            || n.forced_discovery ==ℤ pos 1)
          ≡ false =
        ground (
          arith,
          exists-first (get_index_from_ip p k.dest_can_ip_str) n.rtbl.entries,
          eq_of_parts n.forced_discovery (pos 1),
        ) in
      rw (stay, forward_rreq)
        (rw (get-route, h, answer_for_dest)
          (broadcast-frames p _ minus_one n.if_info_list _
            ∙ ap
                (push_all
                  (flood (answered_rreq (known_rrep (count_hop k) e.hop)) minus_one n.if_info_list))
                (send-frames p (known_rrep (count_hop k) e.hop) e.next_hop_hwaddr e.if_no
                  n.if_info_list n.sent)))

-- The outcome is a result, and these were handed to `sendto` by then.
abbrev pub Sent : Outcome → List Out → Type 0
Sent none s = ⊥
Sent (some r) s = r.1.sent ≡ s

pub Sent-state : (o : Outcome) (r : ℤ × Node) (s : List Out) → o ≡ some r → Sent o s → r.1.sent ≡ s
Sent-state o r s e h = subst (λ x. Sent x s) e h

-- A relayed RREQ whose id is above the one recorded for its source.
pub record Fresh (p : Platform) (k : OdrPack) (n : Node) : Type 0 where
  pub relayed : Relayed p k
  pub slot : Slot (get_index_from_ip p k.src_can_ip_str)
  pub slots : length n.latest_rreq ≡ 11
  pub latest : ℤ
  pub recorded : latest_at (get_index_from_ip p k.src_can_ip_str) n.latest_rreq ≡ some latest
  pub above : latest <ℤ k.rreq.broadcast_id

module _ (p : Platform) (k : OdrPack) (hw : List ℕ) (i : ℤ) (n : Node) where
  -- The routing table once the sender is noted.
  abbrev pub noted : Rtbl
  noted = update_rtbl_entry p k hw i n.rtbl

  pub process_pack-Fresh :
      Fresh p k n
      → (l : List ℤ) × (process_pack p k hw i n
          ≡ some (forward_rreq p k i (record (note_sender p k hw i n) { latest_rreq = l })))
  unfolding note_sender
  process_pack-Fresh c =
      let (l, f) =
        latest_put-Slot (get_index_from_ip p k.src_can_ip_str) k.rreq.broadcast_id n.latest_rreq
          c.slot c.slots in
      (
        l,
        process_pack-relay p k hw i n c.relayed
            ∙ relay_new p (is_self_dest p k.dest_can_ip_str) k i (note_sender p k hw i n) c.recorded
                f c.above,
      )

  -- A new RREQ at a node without an entry for its destination, or under forced discovery, goes
  -- out counted once through every interface but the one it came by, and nothing else is sent.
  pub rreq_floods :
      Fresh p k n
      → (route (get_index_from_ip p k.dest_can_ip_str) noted ≡ none) ⊎ (n.forced_discovery ≡ pos 1)
      → Sent (process_pack p k hw i n) (push_all (flood (count_hop k) i n.if_info_list) n.sent)
  unfolding note_sender
  rreq_floods c h =
      let (l, e) = process_pack-Fresh c in
      rw e (forward_floods p k i (record (note_sender p k hw i n) { latest_rreq = l }) h)

  -- A new RREQ at a node with an entry for its destination, and no forced discovery, is answered
  -- by an RREP that goes to the next hop of the destination's entry; then the RREQ, counted twice
  -- and marked as answered, goes out through every interface.
  pub rreq_answered :
      (e : Entry)
      → Fresh p k n
      → route (get_index_from_ip p k.dest_can_ip_str) noted ≡ some e
      → n.forced_discovery ≢ pos 1
      → let rrep = known_rrep (count_hop k) e.hop in
        Sent (process_pack p k hw i n) (
          push_all
            (flood (answered_rreq rrep) minus_one n.if_info_list)
            (push_all (unicast rrep e.next_hop_hwaddr e.if_no n.if_info_list) n.sent))
  unfolding note_sender
  rreq_answered e c h f =
      let (l, q) = process_pack-Fresh c in
      rw q (forward_answers p k i (record (note_sender p k hw i n) { latest_rreq = l }) e h f)

  pub process_pack-dest :
      k.type ≡ type_rreq
      → InRange k
      → k.rreq.rrep_sent ≢ pos 1
      → is_self_dest p k.dest_can_ip_str ≡ pos 1
      → process_pack p k hw i n ≡ some (answer_rreq p k (note_sender p k hw i n))
  unfolding process_pack process_rreq
  process_pack-dest t r a s = ground (arith, eq_of_parts k.rreq.rrep_sent (pos 1))

  -- An unanswered RREQ within the hop limit at its destination is answered by one RREP of hop
  -- count 1, which goes to the next hop of the source's entry; the entry is there, where list_add
  -- adds last.
  pub rreq_at_dest :
      AddsLast p
      → k.type ≡ type_rreq
      → InRange k
      → k.rreq.rrep_sent ≢ pos 1
      → is_self_dest p k.dest_can_ip_str ≡ pos 1
      → (e : Entry) × (route (get_index_from_ip p k.src_can_ip_str) noted ≡ some e)
        × Sent
            (process_pack p k hw i n)
            (push_all (unicast (dest_rrep k) e.next_hop_hwaddr e.if_no n.if_info_list) n.sent)
  unfolding note_sender answer_rreq
  rreq_at_dest last t r a s =
      let (e, f) =
        route-known (get_index_from_ip p k.src_can_ip_str) noted.entries
          (update-known_src p last k hw i n.rtbl t) in
      (
        e,
        f,
        rw (process_pack-dest t r a s) (
            rw (get-route, f, answer_rreq)
              (send-frames p (dest_rrep k) e.next_hop_hwaddr e.if_no n.if_info_list n.sent)),
      )
