-- ===== src/Table/Map.antt =====
-- The routing table as a map: a route or none for each node, and how a packet changes it. The order of
-- the entries, the walks and the lookups of the list are gone.
use odr.Prelude.{ℕ, ◌+◌, Bool, true, false, Option, none, some, List, if◌then◌else◌}
use odr.Prelude.Int.{ℤ, pos, ◌-ℤ◌, ◌==ℤ◌, ltb_ℤ}
use odr.Structs.{OdrPack, Entry, type_rreq, type_rrep, type_data, minus_one}
use odr.CString.{strncpy}
use odr.Platform.{Platform}
use odr.Table.{Rtbl, Offer, first_with, rreq_offer, rrep_offer, data_dest_offer}

pub record Map : Type 0 where
  pub find : ℤ → Option Entry
  pub sp : ℤ
  pub reads : ℕ

-- The map that a table stands for.
abbrev pub view : Rtbl → Map
view t = record { find = λ j. first_with j t.entries; sp = t.sp; reads = t.reads }

abbrev pub put : ℤ → Entry → (ℤ → Option Entry) → ℤ → Option Entry
put k e f j = if j ==ℤ k then some e else f j

-- The entry of an offer, made at a time over the bytes that are there.
abbrev pub entry_of : Offer → List ℕ → ℤ → ℤ → Entry
entry_of o text hop now = record {
  key = o.key;
  dest_can_ip_str = strncpy text o.ip 14;
  next_hop_hwaddr = o.hwaddr;
  if_no = o.if_no;
  hop = hop;
  ts = now;
}

-- A second change, unless the first one ended the update.
abbrev pub unless_ended : (Map → Map) → Bool × Map → Map
unless_ended f (true, m) = m
unless_ended f (false, m) = f m

module _ (p : Platform) where
  -- An offer for a route that is there: a stale one is replaced, but for a smaller hop count, and
  -- ends the update; a longer one is bettered.
  unfoldable pub revise : Offer → Entry → Map → Bool × Map
  revise o e m =
      if ltb_ℤ m.sp (p.clock m.reads -ℤ e.ts)
      then (
        true,
        record m {
          find =
              put o.key
                (entry_of o e.dest_can_ip_str
                  (if ltb_ℤ o.stale_hop e.hop then o.stale_hop else e.hop) (p.clock (m.reads + 1)))
                m.find;
          reads = m.reads + 2;
        },
      )
      else if ltb_ℤ o.hop e.hop
      then (
        false,
        record m {
          find =
              put o.key
                (record e {
                  next_hop_hwaddr = o.hwaddr;
                  if_no = o.if_no;
                  hop = o.hop;
                  ts = p.clock (m.reads + 1);
                })
                m.find;
          reads = m.reads + 2;
        },
      )
      else (false, record m { reads = m.reads + 1 })

  unfoldable pub refreshed : Offer → Map → Bool × Map
  refreshed o m = elim (m.find o.key) [ none ↦ (false, m) | some e ↦ revise o e m ]

  unfoldable pub learned : Offer → Map → Bool × Map
  learned o m = elim (m.find o.key) [
    | none ↦ (
      false,
      record m {
        find = put o.key (entry_of o p.heap_bytes o.hop (p.clock m.reads)) m.find;
        reads = m.reads + 1;
      },
    )
    | some e ↦ revise o e m
  ]

  -- What a packet does. An answered RREQ offers its source's route twice.
  unfoldable pub updated_map : OdrPack → List ℕ → ℤ → Map → Map
  updated_map k hw i m =
      let src = rreq_offer p k hw i in
      let dest = data_dest_offer p k hw i in
      if k.type ==ℤ type_rreq
      then unless_ended (λ u. if k.rreq.rrep_sent ==ℤ pos 1 then (refreshed src u).1 else u)
          (learned src m)
      else if k.type ==ℤ type_rrep
      then (learned (rrep_offer p k hw i) m).1
      else if k.type ==ℤ type_data
      then unless_ended (λ u. if k.src_dest ==ℤ minus_one then (refreshed dest u).1 else u)
          (if k.src_dest ==ℤ pos 1 then refreshed src m else (false, m))
      else m
