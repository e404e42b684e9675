-- ===== src/Odr/Common.antt =====
-- What the cases of `process_pack` (odr_aa19.c) share: the tests of the node's own address, the update
-- of the routing table with which each case begins, and the result of a send.
use odr.Prelude.{ℕ, List, Option, none, some, if◌then◌else◌}
use odr.Prelude.Int.{ℤ, pos}
use odr.Structs.{OdrPack, Out, minus_one}
use odr.CString.{strncmp_eq}
use odr.Platform.{Platform}
use odr.Table.{update_rtbl_entry}
use odr.Node.{Node}

-- The return value and the state; `none` is an access out of bounds.
abbrev pub Outcome : Type 0
Outcome = Option (ℤ × Node)

-- What a send returns, with its frames in the state.
abbrev pub after_send : Node → ℤ × List Out → ℤ × Node
after_send n (ret, s) = (ret, record n { sent = s })

module _ (p : Platform) where
  unfoldable pub is_self_dest : List ℕ → ℤ
  is_self_dest dest_ip_str = elim p.gethostname [
    | none ↦ minus_one
    | some self_name ↦
        let self_ip_str : List ℕ = elim (p.inet_ntop (p.gethostbyname self_name) 14) [
          | some t ↦ t
          | none ↦ p.stack_bytes
        ] in
        if strncmp_eq self_ip_str dest_ip_str 14 then pos 1 else pos 0
  ]

  unfoldable pub is_self_src : List ℕ → ℤ
  is_self_src src_ip_str = elim p.gethostname [
    | none ↦ minus_one
    | some self_name ↦
        let self_ip_str : List ℕ = elim (p.inet_ntop (p.gethostbyname self_name) 14) [
          | some t ↦ t
          | none ↦ p.stack_bytes
        ] in
        if strncmp_eq self_ip_str src_ip_str 14 then pos 1 else pos 0
  ]

  -- The call of `update_rtbl_entry` with which each handler begins.
  unfoldable pub note_sender : OdrPack → List ℕ → ℤ → Node → Node
  note_sender k hw i n = record n { rtbl = update_rtbl_entry p k hw i n.rtbl }
