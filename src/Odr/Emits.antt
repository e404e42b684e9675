-- ===== src/Odr/Emits.antt =====
-- The packets that a packet can set off, and what `process_pack` adds to the messages that were sent.
use odr.Prelude.{
  ℕ, ◌≡◌, Bool, true, false, not, ◌||◌, List, [], ◌∷◌, some, Bool-cases, Option-cases, inl, inr,
  if◌then◌else◌, take,
}
use odr.Prelude.Int.{ℤ, pos, ◌==ℤ◌, ltb_ℤ}
use odr.Structs.{OdrPack, Entry, Out, to_server, minus_one}
use odr.CString.{memcpy}
use odr.Platform.{Platform}
use odr.Table.{Rtbl, get_index_from_ip, entry_exists_for_src}
use odr.Table.Routes.{route, get-route}
use odr.Link.{broadcast_ll_msg}
use odr.Link.Sent.{Carries, broadcast-sent, send-sent, payload-sent}
use odr.Node.{Node, latest_at, latest_put}
use odr.Odr.Rreq.{
  dest_rrep, count_hop, known_rrep, answered_rreq, answer_rreq, answer_for_dest, forward_rreq,
  relay_rreq,
}
use odr.Odr.Rrep.{request_data, relayed_rrep, finish_discovery, relay_rrep}
use odr.Odr.Data.{reply_data, send_local, deliver_reply, ask_server, relay_towards, relay_data}
use odr.Odr.Cases.{Ensures}

-- A property of all packets that a node can send because of a packet, with a table in which it looks
-- the destination up.
pub record Emits (Q : OdrPack → Type 0) (k : OdrPack) (t : Rtbl) : Type 0 where
  pub itself : Q k
  pub counted : Q (count_hop k)
  pub answer : Q (dest_rrep k)
  pub known : (j : ℤ) (e : Entry) → route j t ≡ some e → Q (known_rrep (count_hop k) e.hop)
  pub marked :
      (j : ℤ) (e : Entry) → route j t ≡ some e → Q (answered_rreq (known_rrep (count_hop k) e.hop))
  pub relayed : Q (relayed_rrep k)
  pub request : (n : Node) → Q (request_data k n)
  pub reply : (bytes : List ℕ) → Q (reply_data k bytes)

pub anything : (k : OdrPack) (t : Rtbl) → Emits (λ _. Unit) k t
anything k t = record {
  itself = tt;
  counted = tt;
  answer = tt;
  known = λ j e h. tt;
  marked = λ j e h. tt;
  relayed = tt;
  request = λ n. tt;
  reply = λ b. tt;
}

module _ (p : Platform) (Q : OdrPack → Type 0) (C : List ℕ → Type 0) (S : List Out → Type 0)
    (closed : (o : Out) (s : List Out) → Carries Q C o → S s → S (o ∷ s)) where
  abbrev pub Sends : Node → Type 0
  Sends n = S n.sent

  module _ (k : OdrPack) where
    pub answer_rreq-sent : (n : Node) → Q (dest_rrep k) → Sends n → Sends (answer_rreq p k n).1
    unfolding answer_rreq
    answer_rreq-sent n q h =
        elim (Option-cases (route (get_index_from_ip p k.src_can_ip_str) n.rtbl)) [
          | inl gone ↦ rw (get-route, gone, answer_rreq) h
          | inr (e, r) ↦
              rw (get-route, r, answer_rreq)
                (send-sent Q C S closed p (dest_rrep k) q e.next_hop_hwaddr e.if_no n.if_info_list
                  n.sent h)
        ]

    answer_for_dest-sent :
        (c : OdrPack) (n : Node)
        → ((j : ℤ) (e : Entry) → route j n.rtbl ≡ some e → Q (known_rrep c e.hop))
        → ((j : ℤ) (e : Entry) → route j n.rtbl ≡ some e → Q (answered_rreq (known_rrep c e.hop)))
        → Sends n
        → Sends (answer_for_dest p c n).1
    unfolding answer_for_dest
    answer_for_dest-sent c n q q' h =
        let j = get_index_from_ip p c.dest_can_ip_str in
        elim (Option-cases (route j n.rtbl)) [
          | inl gone ↦ rw (get-route, gone, answer_for_dest) h
          | inr (e, r) ↦
              rw (get-route, r, answer_for_dest)
                (broadcast-sent Q C S closed p (answered_rreq (known_rrep c e.hop)) (q' j e r)
                  minus_one n.if_info_list _
                  (send-sent Q C S closed p (known_rrep c e.hop) (q j e r) e.next_hop_hwaddr e.if_no
                    n.if_info_list n.sent h))
        ]

    forward_rreq-sent :
        (i : ℤ) (n : Node) → Emits Q k n.rtbl → Sends n → Sends (forward_rreq p k i n).1
    unfolding forward_rreq
    forward_rreq-sent i n q h = choose (
        not (entry_exists_for_src (get_index_from_ip p k.dest_can_ip_str) n.rtbl.entries)
        || n.forced_discovery ==ℤ pos 1)
      where
        choose :
            (b : Bool)
            → Sends
                (if b
                  then (let r = broadcast_ll_msg p n.if_info_list (count_hop k) i n.sent in
                      (r.0, record n { sent = r.1 }))
                  else answer_for_dest p (count_hop k) n).1
        choose true =
            broadcast-sent Q C S closed p (count_hop k) q.counted i n.if_info_list n.sent h
        choose false = answer_for_dest-sent (count_hop k) n q.known q.marked h

    pub relay_rreq-sent :
        (r i : ℤ) (n : Node) → Emits Q k n.rtbl → Sends n → Ensures Sends (relay_rreq p r k i n)
    unfolding relay_rreq
    relay_rreq-sent r i n q h =
        let j = get_index_from_ip p k.src_can_ip_str in
        elim (Option-cases (latest_at j n.latest_rreq)) [
          | inl out ↦ rw (out, relay_rreq) tt
          | inr (x, e) ↦
              rw (e, relay_rreq)
                (elim (Bool-cases (ltb_ℤ x k.rreq.broadcast_id)) [
                  | inr old ↦ rw (old, relay_rreq) h
                  | inl new ↦
                      rw (new, relay_rreq)
                        (elim (Option-cases (latest_put j k.rreq.broadcast_id n.latest_rreq)) [
                          | inl out ↦ rw (out, relay_rreq) tt
                          | inr (l, f) ↦
                              rw (f, relay_rreq)
                                (forward_rreq-sent i (record n { latest_rreq = l }) q h)
                        ])
                ])
        ]

    pub finish_discovery-sent :
        (r : ℤ) (n : Node) → Q (request_data k n) → Sends n → Sends (finish_discovery p r k n).1
    unfolding finish_discovery
    finish_discovery-sent r n q h = elim (Bool-cases (n.route_discovered ==ℤ pos 0)) [
      | inl first ↦
          rw (first, finish_discovery)
            (payload-sent Q C S closed p (request_data k n) q n.if_info_list n.rtbl.entries
              (get_index_from_ip p k.dest_can_ip_str) n.sent h)
      | inr done ↦ rw (done, finish_discovery) h
    ]

    pub relay_rrep-sent :
        (r : ℤ) (n : Node) → Q (relayed_rrep k) → Sends n → Sends (relay_rrep p r k n).1
    unfolding relay_rrep
    relay_rrep-sent r n q h =
        let j = get_index_from_ip p k.src_can_ip_str in
        elim (Bool-cases (entry_exists_for_src j n.rtbl.entries)) [
          | inr no_entry ↦ rw (no_entry, relay_rrep) h
          | inl entry ↦
              rw (entry, relay_rrep)
                (elim (Option-cases (route j n.rtbl)) [
                  | inl gone ↦ rw (get-route, gone, relay_rrep) h
                  | inr (e, f) ↦
                      rw (get-route, f, relay_rrep)
                        (send-sent Q C S closed p (relayed_rrep k) q e.next_hop_hwaddr e.if_no
                          n.if_info_list n.sent h)
                ])
        ]

    pub deliver_reply-sent :
        (n : Node) → C n.al_client_addr → Sends n → Sends (deliver_reply p k n).1
    unfolding deliver_reply send_local
    deliver_reply-sent n c h = closed _ n.sent c h

    pub ask_server-sent :
        (n : Node) → ((b : List ℕ) → Q (reply_data k b)) → Sends n → Sends (ask_server p k n).1
    unfolding ask_server send_local
    ask_server-sent n q h =
        let asked : List Out = to_server (b't' ∷ b't' ∷ []) ∷ n.sent in
        let h' : S asked = closed _ n.sent tt h in
        elim (Option-cases (p.server_answer asked)) [
          | inl late ↦ rw (late, ask_server) h'
          | inr (answer, e) ↦
              let b = memcpy n.server_time_reply (take 32 answer) in
              rw (e, ask_server)
                (payload-sent Q C S closed p (reply_data k b) (q b) n.if_info_list n.rtbl.entries
                  (get_index_from_ip p k.src_can_ip_str) asked h')
        ]

    relay_towards-sent :
        (key r : ℤ) (n : Node) → Q k → Sends n → Sends (relay_towards p k key (r, n)).1
    unfolding relay_towards
    relay_towards-sent key r n q h = elim (Bool-cases (entry_exists_for_src key n.rtbl.entries)) [
      | inl entry ↦
          rw (entry, relay_towards)
            (payload-sent Q C S closed p k q n.if_info_list n.rtbl.entries key n.sent h)
      | inr no_entry ↦ rw (no_entry, relay_towards) h
    ]

    pub relay_data-sent : (n : Node) → Q k → Sends n → Sends (relay_data p k n).1
    unfolding relay_data
    relay_data-sent n q h = elim (Bool-cases (k.src_dest ==ℤ pos 1)) [
      | inl out ↦
          rw (out, relay_data)
            (back _ _ (relay_towards-sent (get_index_from_ip p k.dest_can_ip_str) (pos 0) n q h))
      | inr other ↦ rw (other, relay_data) (back (pos 0) n h)
    ]
      where
        back :
            (r : ℤ) (m : Node)
            → Sends m
            → Sends
                (if k.src_dest ==ℤ minus_one
                  then relay_towards p k (get_index_from_ip p k.src_can_ip_str) (r, m)
                  else (r, m)).1
        back r m h = elim (Bool-cases (k.src_dest ==ℤ minus_one)) [
          | inl b ↦ rw b (relay_towards-sent (get_index_from_ip p k.src_can_ip_str) r m q h)
          | inr b ↦ rw b h
        ]
