-- ===== src/Odr/Total.antt =====
-- `process_pack` always ends with a result, and never with a failure of its own.
use odr.Prelude.{
  ℕ, ◌≡◌, ◌≢◌, ◌⊎◌, Bool, true, false, List, some, arith, length, if◌then◌else◌, Bool-cases, inl,
  inr,
}
use odr.Prelude.Int.{ℤ, pos, ◌≤ℤ◌, ◌==ℤ◌}
use odr.Structs.{OdrPack, type_rreq, type_rrep, type_data}
use odr.Platform.{Platform, AddsLast}
use odr.Table.{get_index_from_ip}
use odr.Table.Keys.{update-known_src}
use odr.Link.Frames.{Healthy}
use odr.Node.{Node}
use odr.Odr.Common.{note_sender, is_self_dest, is_self_src}
use odr.Odr.Rreq.{answer_rreq, relay_rreq, process_rreq}
use odr.Odr.Rrep.{process_rrep}
use odr.Odr.Data.{process_data, deliver_reply, send_local}
use odr.Odr.Cases.{process_pack-cases}
use odr.Odr.Valid.{IsValid}
use odr.Odr.Safe.{
  Succeeds, Slot, answer_rreq-ok, relay_rreq-ok, finish_discovery-ok, relay_rrep-ok, ask_server-ok,
  relay_data-ok,
}
use odr.Odr.{process_pack}

abbrev pub KnownType : OdrPack → Type 0
KnownType k = (k.type ≡ type_rreq) ⊎ ((k.type ≡ type_rrep) ⊎ (k.type ≡ type_data))

module _ (p : Platform) (last : AddsLast p) (up : Healthy p) (name : List ℕ)
    (named : p.gethostname ≡ some name) where
  is_self_dest-ok : (ip : List ℕ) → pos 0 ≤ℤ is_self_dest p ip
  unfolding is_self_dest
  is_self_dest-ok ip = ground arith

  is_self_src-ok : (ip : List ℕ) → pos 0 ≤ℤ is_self_src p ip
  unfolding is_self_src
  is_self_src-ok ip = ground arith

  process_rreq-ok :
      (k : OdrPack) (hw : List ℕ) (i : ℤ) (n : Node)
      → k.type ≡ type_rreq
      → Slot (get_index_from_ip p k.src_can_ip_str)
      → length n.latest_rreq ≡ 11
      → Succeeds (process_rreq p k hw i n)
  unfolding process_rreq note_sender
  process_rreq-ok k hw i n t slot slots = cases (k.rreq.rrep_sent ==ℤ pos 1) (ret ==ℤ pos 1)
    where
      n' : Node
      n' = note_sender p k hw i n

      ret : ℤ
      ret = is_self_dest p k.dest_can_ip_str

      cases :
          (answered here : Bool)
          → Succeeds (
              if answered
              then some (pos 0, n')
              else if here
              then some (answer_rreq p k n')
              else relay_rreq p ret k i n')
      cases true here = omega arith
      cases false true = answer_rreq-ok p up k n' (update-known_src p last k hw i n.rtbl t)
      cases false false =
          relay_rreq-ok p up ret k i n' (is_self_dest-ok k.dest_can_ip_str) slot slots

  process_rrep-ok :
      (k : OdrPack) (hw : List ℕ) (i : ℤ) (n : Node) → pos 0 ≤ℤ (process_rrep p k hw i n).0
  unfolding process_rrep
  process_rrep-ok k hw i n =
      let ret = is_self_src p k.src_can_ip_str in
      let n' = note_sender p k hw i n in
      ground (
        arith,
        is_self_src-ok k.src_can_ip_str,
        finish_discovery-ok p up ret k n',
        relay_rrep-ok p up ret k n',
      )

  process_data-ok :
      (k : OdrPack) (hw : List ℕ) (i : ℤ) (n : Node) → pos 0 ≤ℤ (process_data p k hw i n).0
  unfolding process_data deliver_reply send_local
  process_data-ok k hw i n =
      let n' = note_sender p k hw i n in
      elim (Bool-cases (is_self_src p k.src_can_ip_str ==ℤ pos 0)) [
        | inr here ↦ rw (here, process_data) (up.sends _ _)
        | inl there ↦
            rw (there, process_data)
              (ground (arith, ask_server-ok p up k n', relay_data-ok p up k n'))
      ]

  -- On a packet of a known type whose source has a slot in `latest_rreq`, at a node with a valid
  -- state and a host name, where list_add adds last and every send succeeds, process_pack neither
  -- accesses memory out of bounds nor returns a failure.
  pub process_pack-Succeeds :
      (k : OdrPack) (hw : List ℕ) (i : ℤ) (n : Node)
      → KnownType k
      → Slot (get_index_from_ip p k.src_can_ip_str)
      → IsValid n
      → Succeeds (process_pack p k hw i n)
  process_pack-Succeeds k hw i n t slot v =
      process_pack-cases p k hw i n Succeeds (λ over. omega arith)
        (λ r a. process_rreq-ok k hw i n a slot v.slots) (λ r a. process_rrep-ok k hw i n)
        (λ r a. process_data-ok k hw i n) (λ a b c. absurd (none_of t a b c))
    where
      none_of : KnownType k → k.type ≢ type_rreq → k.type ≢ type_rrep → k.type ≢ type_data → ⊥
      none_of (inl e) a b c = a e
      none_of (inr (inl e)) a b c = b e
      none_of (inr (inr e)) a b c = c e
