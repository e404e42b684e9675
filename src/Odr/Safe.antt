-- ===== src/Odr/Safe.antt =====
-- The handlers never report failure by themselves: -1 comes from a failed send, an unknown host name
-- or an unknown type of packet.
use odr.Prelude.{
  ℕ, zero, suc, [], ◌∷◌, ◌<◌, ◌≡◌, refl, true, List, none, some, arith, length, if◌then◌else◌,
  Bool-cases, Option-cases, inl, inr, get_elem?, set,
}
use odr.Prelude.Int.{ℤ, pos, negsuc, ◌≤ℤ◌, ltb_ℤ, ◌==ℤ◌, to_char}
use odr.Structs.{OdrPack, to_server, minus_one}
use odr.Platform.{Platform}
use odr.Table.{get_index_from_ip, entry_exists_for_src}
use odr.Table.Routes.{get-route, route-known}
use odr.Link.Frames.{Healthy, send-ok, broadcast-ok, payload-ok}
use odr.Node.{Node, latest_at, latest_put}
use odr.Odr.Common.{Outcome}
use odr.Odr.Rreq.{answer_rreq, answer_for_dest, forward_rreq, relay_rreq, count_hop}
use odr.Odr.Rrep.{request_data, finish_discovery, relay_rrep}
use odr.Odr.Data.{ask_server, relay_towards, relay_data, send_local}

-- Not a fault, and not a failure.
abbrev pub Succeeds : Outcome → Type 0
Succeeds none = ⊥
Succeeds (some r) = pos 0 ≤ℤ r.0

-- The source's node has a slot in `latest_rreq`, as vm1 to vm10 have.
abbrev pub Slot : ℤ → Type 0
Slot j = (pos 0 ≤ℤ j) × (j ≤ℤ pos 10)

get-in-range : (l : List ℤ) (i : ℕ) → i < length l → (x : ℤ) × (get_elem? l i ≡ some x)
get-in-range [] i h = elim h [ ]
get-in-range (x ∷ l) zero h = (x, refl)
get-in-range (x ∷ l) (suc i) h = get-in-range l i (omega arith)

pub latest_at-Slot :
    (j : ℤ) (l : List ℤ) → Slot j → length l ≡ 11 → (x : ℤ) × (latest_at j l ≡ some x)
unfolding latest_at
latest_at-Slot (pos i) l s h = get-in-range l i (omega arith)
latest_at-Slot (negsuc i) l s h = absurd (omega arith)

pub latest_put-Slot :
    (j v : ℤ) (l : List ℤ) → Slot j → length l ≡ 11 → (m : List ℤ) × (latest_put j v l ≡ some m)
unfolding latest_put
latest_put-Slot (pos i) v l s h = (set l i (to_char v), ground arith)
latest_put-Slot (negsuc i) v l s h = absurd (omega arith)

module _ (p : Platform) (up : Healthy p) where
  pub answer_rreq-ok :
      (k : OdrPack) (n : Node)
      → entry_exists_for_src (get_index_from_ip p k.src_can_ip_str) n.rtbl.entries ≡ true
      → pos 0 ≤ℤ (answer_rreq p k n).0
  unfolding answer_rreq
  answer_rreq-ok k n h =
      let (e, f) = route-known (get_index_from_ip p k.src_can_ip_str) n.rtbl.entries h in
      rw (get-route, f, answer_rreq) (rw (send-ok p up) (omega arith))

  answer_for_dest-ok :
      (k : OdrPack) (n : Node)
      → entry_exists_for_src (get_index_from_ip p k.dest_can_ip_str) n.rtbl.entries ≡ true
      → pos 0 ≤ℤ (answer_for_dest p k n).0
  unfolding answer_for_dest
  answer_for_dest-ok k n h =
      let (e, f) = route-known (get_index_from_ip p k.dest_can_ip_str) n.rtbl.entries h in
      rw (get-route, f, answer_for_dest) (rw (broadcast-ok p up) (omega arith))

  forward_rreq-ok : (k : OdrPack) (i : ℤ) (n : Node) → pos 0 ≤ℤ (forward_rreq p k i n).0
  unfolding forward_rreq count_hop
  forward_rreq-ok k i n = ground (
    arith,
    broadcast-ok p up (count_hop k) i n.if_info_list n.sent,
    answer_for_dest-ok (count_hop k) n,
  )

  pub relay_rreq-ok :
      (r : ℤ) (k : OdrPack) (i : ℤ) (n : Node)
      → pos 0 ≤ℤ r
      → Slot (get_index_from_ip p k.src_can_ip_str)
      → length n.latest_rreq ≡ 11
      → Succeeds (relay_rreq p r k i n)
  unfolding relay_rreq
  relay_rreq-ok r k i n h slot slots =
      let j = get_index_from_ip p k.src_can_ip_str in
      let (x, e) = latest_at-Slot j n.latest_rreq slot slots in
      let (m, f) = latest_put-Slot j k.rreq.broadcast_id n.latest_rreq slot slots in
      rw (e, f, relay_rreq)
        (elim (Bool-cases (ltb_ℤ x k.rreq.broadcast_id)) [
          | inl new ↦ rw new (forward_rreq-ok k i (record n { latest_rreq = m }))
          | inr old ↦ rw old h
        ])

  pub finish_discovery-ok :
      (r : ℤ) (k : OdrPack) (n : Node) → pos 0 ≤ℤ r → pos 0 ≤ℤ (finish_discovery p r k n).0
  unfolding finish_discovery
  finish_discovery-ok r k n h = ground (
    arith,
    payload-ok p up n.if_info_list n.rtbl.entries (request_data k n)
        (get_index_from_ip p k.dest_can_ip_str) n.sent,
  )

  pub relay_rrep-ok :
      (r : ℤ) (k : OdrPack) (n : Node) → pos 0 ≤ℤ r → pos 0 ≤ℤ (relay_rrep p r k n).0
  unfolding relay_rrep
  relay_rrep-ok r k n h =
      elim (Bool-cases
        (entry_exists_for_src (get_index_from_ip p k.src_can_ip_str) n.rtbl.entries)) [
          | inl a ↦
              let (e, f) = route-known (get_index_from_ip p k.src_can_ip_str) n.rtbl.entries a in
              rw (a, relay_rrep) (rw (get-route, f, relay_rrep) (rw (send-ok p up) (omega arith)))
          | inr b ↦ rw (b, relay_rrep) h
        ]

  pub ask_server-ok : (k : OdrPack) (n : Node) → pos 0 ≤ℤ (ask_server p k n).0
  unfolding ask_server send_local
  ask_server-ok k n =
      elim (Option-cases (p.server_answer (to_server (b't' ∷ b't' ∷ []) ∷ n.sent))) [
        | inl late ↦ rw (late, ask_server) (omega arith)
        | inr (answer, e) ↦ rw (e, ask_server) (rw (payload-ok p up) (omega arith))
      ]

  relay_towards-ok :
      (k : OdrPack) (key r : ℤ) (n : Node) → pos 0 ≤ℤ r → pos 0 ≤ℤ (relay_towards p k key (r, n)).0
  unfolding relay_towards
  relay_towards-ok k key r n h =
      ground (arith, payload-ok p up n.if_info_list n.rtbl.entries k key n.sent)

  pub relay_data-ok : (k : OdrPack) (n : Node) → pos 0 ≤ℤ (relay_data p k n).0
  unfolding relay_data
  relay_data-ok k n = elim (Bool-cases (k.src_dest ==ℤ pos 1)) [
    | inl a ↦
        rw (a, relay_data)
          (back _ _
            (relay_towards-ok k (get_index_from_ip p k.dest_can_ip_str) (pos 0) n (omega arith)))
    | inr a ↦ rw (a, relay_data) (back (pos 0) n (omega arith))
  ]
    where
      back :
          (r : ℤ) (m : Node)
          → pos 0 ≤ℤ r
          → pos 0
            ≤ℤ (if k.src_dest ==ℤ minus_one
                then relay_towards p k (get_index_from_ip p k.src_can_ip_str) (r, m)
                else (r, m)).0
      back r m h = elim (Bool-cases (k.src_dest ==ℤ minus_one)) [
        | inl b ↦ rw b (relay_towards-ok k (get_index_from_ip p k.src_can_ip_str) r m h)
        | inr b ↦ rw b h
      ]
