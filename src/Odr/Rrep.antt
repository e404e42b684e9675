-- ===== src/Odr/Rrep.antt =====
-- `process_pack` of odr_aa19.c, case TYPE_RREP.
use odr.Prelude.{ℕ, List, none, some, if◌then◌else◌}
use odr.Prelude.Int.{ℤ, pos, ◌+ℤ◌, ◌==ℤ◌}
use odr.Structs.{OdrPack, type_data, minus_one}
use odr.CString.{strncpy}
use odr.Platform.{Platform}
use odr.Table.{entry_exists_for_src, get_index_from_ip, get_rtbl_entry}
use odr.Link.{send_ll_msg, send_payload}
use odr.Node.{Node}
use odr.Odr.Common.{after_send, is_self_src, note_sender}

-- The packet with the client's request that answers an RREP.
unfoldable pub request_data : OdrPack → Node → OdrPack
request_data k n = record k {
  type = type_data;
  payload = strncpy k.payload n.msg 32;
  src_dest = pos 1;
}

-- The RREP as it is sent on.
unfoldable pub relayed_rrep : OdrPack → OdrPack
relayed_rrep k = record k {
  rrep = record (k.rrep) { hop = k.rrep.hop +ℤ pos 1; force_discovery = pos 0 };
}

module _ (p : Platform) where
  -- An RREP at the node that asked. `ret` is 1.
  unfoldable pub finish_discovery : ℤ → OdrPack → Node → ℤ × Node
  finish_discovery ret k n =
      if n.route_discovered ==ℤ pos 0
      then (let (r, n') = after_send n (
            send_payload p n.if_info_list n.rtbl.entries (request_data k n)
              (get_index_from_ip p k.dest_can_ip_str) n.sent) in
          (r, record n' { route_discovered = pos 1 }))
      else (ret, n)

  -- An RREP at an intermediate node. `ret` is what `is_self_src` returned.
  unfoldable pub relay_rrep : ℤ → OdrPack → Node → ℤ × Node
  relay_rrep ret k n =
      if entry_exists_for_src (get_index_from_ip p k.src_can_ip_str) n.rtbl.entries
      then elim (get_rtbl_entry p k.src_can_ip_str n.rtbl.entries) [
        | none ↦ (minus_one, n)
        | some (to, i, _) ↦ after_send n (send_ll_msg p n.if_info_list (relayed_rrep k) to i n.sent)
      ]
      else (ret, n)

  -- case TYPE_RREP
  unfoldable pub process_rrep : OdrPack → List ℕ → ℤ → Node → ℤ × Node
  process_rrep k hw i n =
      let ret = is_self_src p k.src_can_ip_str in
      let n' = note_sender p k hw i n in
      if ret ==ℤ pos 1 then finish_discovery ret k n' else relay_rrep ret k n'
