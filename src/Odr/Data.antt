-- ===== src/Odr/Data.antt =====
-- `process_pack` of odr_aa19.c, case TYPE_DATA.
use odr.Prelude.{ℕ, not, List, [], ◌∷◌, none, some, take, if◌then◌else◌}
use odr.Prelude.Int.{ℤ, pos, ◌==ℤ◌}
use odr.Structs.{OdrPack, Out, to_client, to_server, minus_one}
use odr.CString.{strncpy, memcpy, bytes}
use odr.Platform.{Platform}
use odr.Table.{entry_exists_for_src, get_index_from_ip}
use odr.Link.{send_payload}
use odr.Node.{Node}
use odr.Odr.Common.{after_send, is_self_dest, is_self_src, note_sender}

-- The packet that takes the server's answer back.
unfoldable pub reply_data : OdrPack → List ℕ → OdrPack
reply_data k answer = record k { src_dest = minus_one; payload = strncpy k.payload answer 32 }

module _ (p : Platform) where
  -- A message handed to `sendto`.
  unfoldable pub send_local : Out → Node → ℤ × Node
  send_local o n = (p.sendto n.sent o, record n { sent = o ∷ n.sent })

  -- The server's reply at the node that asked.
  unfoldable pub deliver_reply : OdrPack → Node → ℤ × Node
  deliver_reply k n =
      send_local
        (to_client n.al_client_addr (record {
          time = bytes 32 k.payload;
          ip = bytes 15 k.dest_can_ip_str;
          port = n.server_port;
        }))
        n

  -- A request at the node of the server. recvfrom takes at most 32 bytes.
  unfoldable pub ask_server : OdrPack → Node → ℤ × Node
  ask_server k n =
      let (_, n') = send_local (to_server (b't' ∷ b't' ∷ [])) n in
      elim (p.server_answer n'.sent) [
        | none ↦ (pos 1, n')
        | some answer ↦
            let reply = memcpy n'.server_time_reply (take 32 answer) in
            let n'' = record n' { server_time_reply = reply } in
            after_send n'' (
              send_payload p n''.if_info_list n''.rtbl.entries (reply_data k reply)
                (get_index_from_ip p k.src_can_ip_str) n''.sent)
      ]

  -- One direction of the relay: send to the node of a key, if the table has it.
  unfoldable pub relay_towards : OdrPack → ℤ → ℤ × Node → ℤ × Node
  relay_towards k key (ret, n) =
      if entry_exists_for_src key n.rtbl.entries
      then after_send n (send_payload p n.if_info_list n.rtbl.entries k key n.sent)
      else (ret, n)

  -- A payload at an intermediate node.
  unfoldable pub relay_data : OdrPack → Node → ℤ × Node
  relay_data k n =
      let r =
        if k.src_dest ==ℤ pos 1
        then relay_towards k (get_index_from_ip p k.dest_can_ip_str) (pos 0, n)
        else (pos 0, n) in
      if k.src_dest ==ℤ minus_one
      then relay_towards k (get_index_from_ip p k.src_can_ip_str) r
      else r

  -- case TYPE_DATA. The tests take any value but 0 for true.
  unfoldable pub process_data : OdrPack → List ℕ → ℤ → Node → ℤ × Node
  process_data k hw i n =
      let n' = note_sender p k hw i n in
      if not (is_self_src p k.src_can_ip_str ==ℤ pos 0)
      then deliver_reply k n'
      else if not (is_self_dest p k.dest_can_ip_str ==ℤ pos 0)
      then ask_server k n'
      else relay_data k n'
