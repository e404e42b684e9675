-- ===== src/Odr/Rreq.antt =====
-- `process_pack` of odr_aa19.c, case TYPE_RREQ.
use odr.Prelude.{ℕ, ◌||◌, not, List, none, some, if◌then◌else◌}
use odr.Prelude.Int.{ℤ, pos, ◌+ℤ◌, ltb_ℤ, ◌==ℤ◌}
use odr.Structs.{OdrPack, type_rreq, type_rrep, minus_one}
use odr.Platform.{Platform}
use odr.Table.{entry_exists_for_src, get_index_from_ip, get_rtbl_entry}
use odr.Link.{broadcast_ll_msg, send_ll_msg}
use odr.Node.{Node, latest_at, latest_put}
use odr.Odr.Common.{Outcome, after_send, is_self_dest, note_sender}

-- The RREP that the destination makes out of an RREQ.
unfoldable pub dest_rrep : OdrPack → OdrPack
dest_rrep k = record k {
  type = type_rrep;
  rrep = record { hop = pos 1; broadcast_id = pos 1; force_discovery = pos 0 };
}

-- `packet->rreq.hop++`
unfoldable pub count_hop : OdrPack → OdrPack
count_hop k = record k { rreq = record (k.rreq) { hop = k.rreq.hop +ℤ pos 1 } }

-- The RREP of an intermediate node that has an entry of the given hop count for the destination.
unfoldable pub known_rrep : OdrPack → ℤ → OdrPack
known_rrep k h = record k {
  type = type_rrep;
  rrep = record { hop = h +ℤ pos 1; broadcast_id = pos 1; force_discovery = pos 0 };
}

-- The RREQ that goes on after that RREP, counted once more.
unfoldable pub answered_rreq : OdrPack → OdrPack
answered_rreq k = record k {
  type = type_rreq;
  rreq = record (k.rreq) { hop = k.rreq.hop +ℤ pos 1; rrep_sent = pos 1 };
}

module _ (p : Platform) where
  -- An RREQ at its destination.
  unfoldable pub answer_rreq : OdrPack → Node → ℤ × Node
  answer_rreq k n = elim (get_rtbl_entry p k.src_can_ip_str n.rtbl.entries) [
    | none ↦ (minus_one, n)
    | some (to, i, _) ↦ after_send n (send_ll_msg p n.if_info_list (dest_rrep k) to i n.sent)
  ]

  -- The branch with a table entry for the destination.
  unfoldable pub answer_for_dest : OdrPack → Node → ℤ × Node
  answer_for_dest k n = elim (get_rtbl_entry p k.dest_can_ip_str n.rtbl.entries) [
    | none ↦ (minus_one, n)
    | some (to, i, h) ↦
        let (_, s) = send_ll_msg p n.if_info_list (known_rrep k h) to i n.sent in
        after_send n
          (broadcast_ll_msg p n.if_info_list (answered_rreq (known_rrep k h)) minus_one s)
  ]

  -- A new RREQ at an intermediate node, after its id was recorded.
  unfoldable pub forward_rreq : OdrPack → ℤ → Node → ℤ × Node
  forward_rreq k i n =
      if not (entry_exists_for_src (get_index_from_ip p k.dest_can_ip_str) n.rtbl.entries)
        || n.forced_discovery ==ℤ pos 1
      then after_send n (broadcast_ll_msg p n.if_info_list (count_hop k) i n.sent)
      else answer_for_dest (count_hop k) n

  -- An RREQ at an intermediate node. `ret` is what `is_self_dest` returned.
  unfoldable pub relay_rreq : ℤ → OdrPack → ℤ → Node → Outcome
  relay_rreq ret k i n =
      let src_idx = get_index_from_ip p k.src_can_ip_str in
      elim (latest_at src_idx n.latest_rreq) [
        | none ↦ none
        | some latest ↦
            if ltb_ℤ latest k.rreq.broadcast_id
            then elim (latest_put src_idx k.rreq.broadcast_id n.latest_rreq) [
              | none ↦ none
              | some l ↦ some (forward_rreq k i (record n { latest_rreq = l }))
            ]
            else some (ret, n)
      ]

  -- case TYPE_RREQ
  unfoldable pub process_rreq : OdrPack → List ℕ → ℤ → Node → Outcome
  process_rreq k hw i n =
      let n' = note_sender p k hw i n in
      let ret = is_self_dest p k.dest_can_ip_str in
      if k.rreq.rrep_sent ==ℤ pos 1
      then some (pos 0, n')
      else if ret ==ℤ pos 1
      then some (answer_rreq k n')
      else relay_rreq ret k i n'
