-- ===== src/Table.antt =====
-- The routing table, rtbl.h, and `get_index_from_ip` of odr.h.
pub mod Walk
pub mod Keys
pub mod Keeps
pub mod Valid
pub mod Routes
pub mod Progress
pub mod Senders
pub mod Map
pub mod Revises
pub mod Refines
pub mod Others
use odr.Prelude.{
  ℕ, ◌+◌, Bool, true, false, ◌&&◌, List, [], ◌∷◌, Option, none, some, ◌==◌, if◌then◌else◌,
}
use odr.Prelude.Int.{ℤ, pos, ◌-ℤ◌, ltb_ℤ, ◌==ℤ◌, to_char}
use odr.Structs.{OdrPack, Entry, type_rreq, type_rrep, type_data, minus_one}
use odr.CString.{strncpy, c_string}
use odr.Platform.{Platform}

-- `rtbl`, the staleness parameter `sp`, and how often the clock has been read.
pub record Rtbl : Type 0 where
  pub entries : List Entry
  pub sp : ℤ
  pub reads : ℕ

-- What a packet says of the route to a node. `stale_hop` is the hop count that a stale entry is
-- compared with, `hop` the one for an entry that is not stale or not there.
pub record Offer : Type 0 where
  pub key : ℤ
  pub ip : List ℕ
  pub stale_hop : ℤ
  pub hop : ℤ
  pub hwaddr : List ℕ
  pub if_no : ℤ

-- `return 1` was reached, clock readings so far, and what the walk leaves.
pub record Pass : Type 0 where
  pub stopped : Bool
  pub reads : ℕ
  pub entries : List Entry

unfoldable pub first_with : ℤ → List Entry → Option Entry
first_with k [] = none
first_with k (e ∷ es) = if e.key ==ℤ k then some e else first_with k es

unfoldable pub entry_exists_for_src : ℤ → List Entry → Bool
entry_exists_for_src k [] = false
entry_exists_for_src k (e ∷ es) = if e.key ==ℤ k then true else entry_exists_for_src k es

-- The branch for a stale entry.
unfoldable pub replace_stale : Offer → ℤ → Entry → Entry
replace_stale o now e = record e {
  key = o.key;
  dest_can_ip_str = strncpy e.dest_can_ip_str o.ip 14;
  next_hop_hwaddr = o.hwaddr;
  if_no = o.if_no;
  ts = now;
  hop = if ltb_ℤ o.stale_hop e.hop then o.stale_hop else e.hop;
}

-- The branch for a path with fewer hops.
unfoldable pub take_better : Offer → ℤ → Entry → Entry
take_better o now e = record e {
  next_hop_hwaddr = o.hwaddr;
  if_no = o.if_no;
  hop = o.hop;
  ts = now;
}

module _ (p : Platform) where
  -- The last return converts `host[2]`, a signed char.
  unfoldable pub get_index_from_ip : List ℕ → ℤ
  get_index_from_ip ip =
      let host = p.getnameinfo (c_string ip) in
      if host 3 == b'0' && host 2 == b'1' then pos 10 else to_char (pos (host 2)) -ℤ pos b'0'

  -- The body of the walk, at one entry.
  unfoldable pub visit : Offer → ℤ → ℕ → Entry → Bool × ℕ × Entry
  unfolding replace_stale take_better
  visit o sp n e =
      if e.key ==ℤ o.key
      then (if ltb_ℤ sp (p.clock n -ℤ e.ts)
          then (true, n + 2, replace_stale o (p.clock (n + 1)) e)
          else if ltb_ℤ o.hop e.hop
          then (false, n + 2, take_better o (p.clock (n + 1)) e)
          else (false, n + 1, e))
      else (false, n, e)

  unfoldable pub walk : Offer → ℤ → ℕ → List Entry → Pass
  walk o sp n [] = record { stopped = false; reads = n; entries = [] }
  walk o sp n (e ∷ es) =
      let (stop, m, e') = visit o sp n e in
      let rest = walk o sp m es in
      if stop
      then record { stopped = true; reads = m; entries = e' ∷ es }
      else record { stopped = rest.stopped; reads = rest.reads; entries = e' ∷ rest.entries }

  unfoldable pub refresh : Offer → Rtbl → Bool × Rtbl
  refresh o t =
      let r = walk o t.sp t.reads t.entries in
      (r.stopped, record t { entries = r.entries; reads = r.reads })

  unfoldable pub add_new_entry : Offer → Rtbl → Rtbl
  add_new_entry o t = record t {
    entries =
        p.rtbl_add
          (record {
            key = o.key;
            dest_can_ip_str = strncpy p.heap_bytes o.ip 14;
            next_hop_hwaddr = o.hwaddr;
            if_no = o.if_no;
            hop = o.hop;
            ts = p.clock t.reads;
          })
          t.entries;
    reads = t.reads + 1;
  }

  -- Refresh the entry of the offer's key, or add one. True if `return 1` was reached.
  unfoldable pub learn : Offer → Rtbl → Bool × Rtbl
  learn o t =
      if entry_exists_for_src o.key t.entries then refresh o t else (false, add_new_entry o t)

  unfoldable pub rreq_offer : OdrPack → List ℕ → ℤ → Offer
  rreq_offer k hw i = record {
    key = get_index_from_ip k.src_can_ip_str;
    ip = k.src_can_ip_str;
    stale_hop = k.rreq.hop;
    hop = k.rreq.hop;
    hwaddr = hw;
    if_no = i;
  }

  unfoldable pub rrep_offer : OdrPack → List ℕ → ℤ → Offer
  rrep_offer k hw i = record {
    key = get_index_from_ip k.dest_can_ip_str;
    ip = k.dest_can_ip_str;
    stale_hop = k.rreq.hop;
    hop = k.rrep.hop;
    hwaddr = hw;
    if_no = i;
  }

  -- The part under `rrep_sent == 1`. A new entry would get the destination's address.
  unfoldable pub update_rrep_sent : OdrPack → List ℕ → ℤ → Rtbl → Rtbl
  update_rrep_sent k hw i t =
      let o = rreq_offer k hw i in
      if entry_exists_for_src o.key t.entries
      then (refresh o t).1
      else add_new_entry (record o { ip = k.dest_can_ip_str }) t

  unfoldable pub update_rreq : OdrPack → List ℕ → ℤ → Rtbl → Rtbl
  update_rreq k hw i t =
      let (stop, t') = learn (rreq_offer k hw i) t in
      if stop then t' else if k.rreq.rrep_sent ==ℤ pos 1 then update_rrep_sent k hw i t' else t'

  unfoldable pub update_rrep : OdrPack → List ℕ → ℤ → Rtbl → Rtbl
  update_rrep k hw i t = (learn (rrep_offer k hw i) t).1

  unfoldable pub data_dest_offer : OdrPack → List ℕ → ℤ → Offer
  data_dest_offer k hw i = record {
    key = get_index_from_ip k.dest_can_ip_str;
    ip = k.dest_can_ip_str;
    stale_hop = k.rreq.hop;
    hop = k.rreq.hop;
    hwaddr = hw;
    if_no = i;
  }

  unfoldable pub update_data : OdrPack → List ℕ → ℤ → Rtbl → Rtbl
  update_data k hw i t =
      let o = rreq_offer k hw i in
      let (stop, t') =
        if entry_exists_for_src o.key t.entries && k.src_dest ==ℤ pos 1
        then refresh o t
        else (false, t) in
      let d = data_dest_offer k hw i in
      if stop
      then t'
      else if entry_exists_for_src d.key t'.entries && k.src_dest ==ℤ minus_one
      then (refresh d t').1
      else t'

  unfoldable pub update_rtbl_entry : OdrPack → List ℕ → ℤ → Rtbl → Rtbl
  update_rtbl_entry k hw i t =
      if k.type ==ℤ type_rreq
      then update_rreq k hw i t
      else if k.type ==ℤ type_rrep
      then update_rrep k hw i t
      else if k.type ==ℤ type_data
      then update_data k hw i t
      else t

  -- The next hop's address, the interface and the hop count, or -1.
  unfoldable pub get_rtbl_entry : List ℕ → List Entry → Option (List ℕ × ℤ × ℤ)
  get_rtbl_entry ip es =
      if entry_exists_for_src (get_index_from_ip ip) es
      then elim (first_with (get_index_from_ip ip) es) [
        | some e ↦ some (e.next_hop_hwaddr, e.if_no, e.hop)
        | none ↦ none
      ]
      else none
