-- ===== src/Odr/Payloads.antt =====
-- What a node sends on a payload.
use odr.Prelude.{
  ℕ, ◌⊎◌, ◌≡◌, refl, ap, ◌∙◌, true, false, List, [], ◌∷◌, Option, none, some, arith, take,
  if◌then◌else◌, Bool, Bool-cases, Option-cases, inl, inr,
}
use odr.Prelude.Int.{ℤ, pos, ◌==ℤ◌}
use odr.Structs.{OdrPack, Entry, Out, to_client, to_server, type_data, minus_one}
use odr.CString.{bytes, memcpy}
use odr.Platform.{Platform, AddsLast}
use odr.Table.{Rtbl, get_index_from_ip}
use odr.Table.Valid.{InRange, update-IsValid}
use odr.Table.Routes.{route}
use odr.Table.Walk.{exists-first}
use odr.Table.Keys.{Distinct}
use odr.Link.Frames.{push_all, payload_frames, to_entry-frames, payload-frames}
use odr.Node.{Node}
use odr.Odr.Common.{note_sender, is_self_dest, is_self_src}
use odr.Odr.Data.{
  deliver_reply, reply_data, ask_server, relay_towards, relay_data, send_local, process_data,
}
use odr.Odr.Valid.{IsValid}
use odr.Odr.Sends.{Sent, noted}
use odr.Odr.{process_pack}

bit : (b : Bool) → ((if b then pos 1 else pos 0) ≡ pos 1) ⊎ ((if b then pos 1 else pos 0) ≡ pos 0)
bit true = inl refl
bit false = inr refl

module _ (p : Platform) (k : OdrPack) (hw : List ℕ) (i : ℤ) (n : Node) where
  pub process_pack-data :
      k.type ≡ type_data → InRange k → process_pack p k hw i n ≡ some (process_data p k hw i n)
  unfolding process_pack
  process_pack-data t r = ground arith

  -- A payload at the node that asked goes to its client, as the time, the server's address and the
  -- port.
  pub data_delivered :
      k.type ≡ type_data
      → InRange k
      → is_self_src p k.src_can_ip_str ≡ pos 1
      → Sent (process_pack p k hw i n) (
          to_client n.al_client_addr (record {
            time = bytes 32 k.payload;
            ip = bytes 15 k.dest_can_ip_str;
            port = n.server_port;
          })
          ∷ n.sent)
  unfolding process_data deliver_reply send_local note_sender
  data_delivered t r a = rw (process_pack-data t r) (rw a)

  -- The frames of a server's node: the request to the server process, and with an answer in time the
  -- reply to the next hop of the source's entry.
  abbrev pub reply_frames : Option (List ℕ) → List Out → List Out
  reply_frames none s = s
  reply_frames (some answer) s =
      push_all
        (payload_frames (reply_data k (memcpy n.server_time_reply (take 32 answer))) n.if_info_list
          (route (get_index_from_ip p k.src_can_ip_str) (noted p k hw i n)))
        s

  pub data_answered :
      AddsLast p
      → IsValid n
      → k.type ≡ type_data
      → InRange k
      → is_self_src p k.src_can_ip_str ≡ pos 0
      → is_self_dest p k.dest_can_ip_str ≡ pos 1
      → let asked = to_server (b't' ∷ b't' ∷ []) ∷ n.sent in
        Sent (process_pack p k hw i n) (reply_frames (p.server_answer asked) asked)
  unfolding process_data ask_server send_local note_sender
  data_answered last v t r a b =
      let asked : List Out = to_server (b't' ∷ b't' ∷ []) ∷ n.sent in
      let d = (update-IsValid p last k hw i n.rtbl r v.table).distinct in
      let key = get_index_from_ip p k.src_can_ip_str in
      rw (process_pack-data t r) (
        rw (a, process_data)
          (rw (b, process_data)
            (elim (Option-cases (p.server_answer asked)) [
              | inl late ↦ rw (late, ask_server) refl
              | inr (answer, e) ↦
                  let q = reply_data k (memcpy n.server_time_reply (take 32 answer)) in
                  rw (e, ask_server)
                    (ap (λ (x : ℤ × List Out). x.1)
                        (payload-frames p n.if_info_list q key (noted p k hw i n).entries asked d)
                      ∙ to_entry-frames p q n.if_info_list asked (route key (noted p k hw i n)))
            ])))

  -- Where a payload on its way goes: with the client's request to the destination, with the reply to
  -- the source, and nowhere by another value of `src_dest`.
  abbrev pub towards : Rtbl → Option Entry
  towards t =
      if k.src_dest ==ℤ pos 1
      then route (get_index_from_ip p k.dest_can_ip_str) t
      else if k.src_dest ==ℤ minus_one
      then route (get_index_from_ip p k.src_can_ip_str) t
      else none

  relay_towards-frames :
      (key r : ℤ) (m : Node)
      → Distinct m.rtbl.entries
      → (relay_towards p k key (r, m)).1.sent
        ≡ push_all (payload_frames k m.if_info_list (route key m.rtbl)) m.sent
  unfolding relay_towards
  relay_towards-frames key r m d = elim (Option-cases (route key m.rtbl)) [
    | inl gone ↦ rw (exists-first, gone, relay_towards) refl
    | inr (e, f) ↦
        rw (exists-first, f, relay_towards)
          (ap (λ (x : ℤ × List Out). x.1)
              (payload-frames p m.if_info_list k key m.rtbl.entries m.sent d)
            ∙ to_entry-frames p k m.if_info_list m.sent (route key m.rtbl)
            ∙ ap (λ x. push_all (payload_frames k m.if_info_list x) m.sent) f)
  ]

  pub data_relayed :
      AddsLast p
      → IsValid n
      → k.type ≡ type_data
      → InRange k
      → is_self_src p k.src_can_ip_str ≡ pos 0
      → is_self_dest p k.dest_can_ip_str ≡ pos 0
      → Sent
          (process_pack p k hw i n)
          (push_all (payload_frames k n.if_info_list (towards (noted p k hw i n))) n.sent)
  unfolding process_data relay_data note_sender
  data_relayed last v t r a b =
      let m = note_sender p k hw i n in
      let d = (update-IsValid p last k hw i n.rtbl r v.table).distinct in
      rw (process_pack-data t r) (
        rw (a, process_data)
          (rw (b, process_data)
            (elim (Bool-cases (k.src_dest ==ℤ pos 1)) [
              | inl out ↦
                  let stay : (k.src_dest ==ℤ minus_one) ≡ false = ground arith in
                  rw (out, stay, relay_data)
                    (relay_towards-frames (get_index_from_ip p k.dest_can_ip_str) (pos 0) m d)
              | inr other ↦
                  rw (other, relay_data)
                    (elim (Bool-cases (k.src_dest ==ℤ minus_one)) [
                      | inl back ↦
                          rw (back, relay_data)
                            (relay_towards-frames (get_index_from_ip p k.src_can_ip_str) (pos 0) m
                              d)
                      | inr neither ↦ rw (neither, relay_data) refl
                    ])
            ])))

  -- All that a node sends on a payload: the reply to its client, the server's answer, or the payload
  -- itself, by the node's part in the exchange.
  abbrev pub data_sent : List Out
  data_sent =
      let asked : List Out = to_server (b't' ∷ b't' ∷ []) ∷ n.sent in
      if is_self_src p k.src_can_ip_str ==ℤ pos 1
      then to_client n.al_client_addr (record {
        time = bytes 32 k.payload;
        ip = bytes 15 k.dest_can_ip_str;
        port = n.server_port;
      })
        ∷ n.sent
      else if is_self_dest p k.dest_can_ip_str ==ℤ pos 1
      then reply_frames (p.server_answer asked) asked
      else push_all (payload_frames k n.if_info_list (towards (noted p k hw i n))) n.sent

  is_self_src-cases :
      (name : List ℕ) (ip : List ℕ)
      → p.gethostname ≡ some name
      → (is_self_src p ip ≡ pos 1) ⊎ (is_self_src p ip ≡ pos 0)
  unfolding is_self_src
  is_self_src-cases name ip e = rw (e, is_self_src) (bit _)

  is_self_dest-cases :
      (name : List ℕ) (ip : List ℕ)
      → p.gethostname ≡ some name
      → (is_self_dest p ip ≡ pos 1) ⊎ (is_self_dest p ip ≡ pos 0)
  unfolding is_self_dest
  is_self_dest-cases name ip e = rw (e, is_self_dest) (bit _)

  -- A payload within the hop limit, at a node with a host name and a valid state where list_add
  -- adds last, is handed to the client at the node that asked, to the server at the destination,
  -- with the reply sent back along the source's route if it comes in time, and elsewhere to the
  -- next hop of the route to the end that it goes to, if there is one.
  pub data_sends :
      (name : List ℕ)
      → AddsLast p
      → IsValid n
      → p.gethostname ≡ some name
      → k.type ≡ type_data
      → InRange k
      → Sent (process_pack p k hw i n) data_sent
  data_sends name last v e t r = elim (is_self_src-cases name k.src_can_ip_str e) [
    | inl here ↦ rw here (data_delivered t r here)
    | inr away ↦ elim (is_self_dest-cases name k.dest_can_ip_str e) [
      | inl here ↦ rw (away, here) (data_answered last v t r away here)
      | inr far ↦ rw (away, far) (data_relayed last v t r away far)
    ]
  ]
