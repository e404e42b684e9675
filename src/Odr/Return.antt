-- ===== src/Odr/Return.antt =====
-- How the node of a server keeps the way back by which an RREQ came, and answers a payload by it.
use odr.Prelude.{ℕ, ◌≡◌, ◌≢◌, ◌∙◌, ap, subst, List, [], ◌∷◌, some, none, take, inl, inr}
use odr.Prelude.Int.{ℤ, pos}
use odr.Structs.{OdrPack, Entry, Out, to_server, type_rreq, type_data}
use odr.CString.{memcpy}
use odr.Platform.{Platform, AddsLast}
use odr.Table.{Rtbl, get_index_from_ip}
use odr.Table.Valid.{InRange}
use odr.Table.Routes.{route}
use odr.Table.Senders.{Via, update-new, update-sender}
use odr.Link.Frames.{push_all, unicast}
use odr.Node.{Node}
use odr.Odr.Common.{is_self_dest, is_self_src, note_sender}
use odr.Odr.Data.{reply_data}
use odr.Odr.Frame.{answer_rreq-keeps}
use odr.Odr.Cases.{Ensures}
use odr.Odr.Valid.{IsValid}
use odr.Odr.Sends.{Sent, noted, rreq_at_dest, process_pack-dest}
use odr.Odr.Payloads.{data_answered, reply_frames}
use odr.Odr.{process_pack}

-- A table has a route to `j` by the neighbour `hw`, through the interface `i`.
abbrev pub HasVia : ℤ → List ℕ → ℤ → Rtbl → Type 0
HasVia j hw i t = (e : Entry) × (route j t ≡ some e) × Via hw i e

module _ (p : Platform) (last : AddsLast p) (k : OdrPack) (hw : List ℕ) (i : ℤ) (n : Node) where
  -- What the destination of an RREQ notes.
  pub dest-HasVia :
      k.type ≡ type_rreq
      → InRange k
      → k.rreq.rrep_sent ≢ pos 1
      → is_self_dest p k.dest_can_ip_str ≡ pos 1
      → route (get_index_from_ip p k.src_can_ip_str) n.rtbl ≡ none
      → Ensures
          (λ m. HasVia (get_index_from_ip p k.src_can_ip_str) hw i m.rtbl)
          (process_pack p k hw i n)
  unfolding note_sender
  dest-HasVia t r a s gone =
      let (e, f, _) = rreq_at_dest p k hw i n last t r a s in
      let via = update-new p last k hw i n.rtbl (get_index_from_ip p k.src_can_ip_str) e gone f in
      let same = (answer_rreq-keeps p k (note_sender p k hw i n)).0 in
      rw (process_pack-dest p k hw i n t r a s) (e, ap (route _) same ∙ f, via)

  -- A packet from a neighbour leaves a route by that neighbour one.
  pub noted-HasVia : (j : ℤ) → HasVia j hw i n.rtbl → HasVia j hw i (noted p k hw i n)
  noted-HasVia j (e, f, via) = elim (update-sender p last k hw i n.rtbl j) [
    | inl same ↦ (e, same ∙ f, via)
    | inr new ↦ new
  ]

  -- With a route back by the neighbour that a payload came from, the server's answer goes there.
  pub answer_returns :
      (text : List ℕ)
      → IsValid n
      → k.type ≡ type_data
      → InRange k
      → is_self_src p k.src_can_ip_str ≡ pos 0
      → is_self_dest p k.dest_can_ip_str ≡ pos 1
      → ((s : List Out) → p.server_answer s ≡ some text)
      → HasVia (get_index_from_ip p k.src_can_ip_str) hw i n.rtbl
      → Sent (process_pack p k hw i n) (
          push_all
            (unicast (reply_data k (memcpy n.server_time_reply (take 32 text))) hw i n.if_info_list)
            (to_server (b't' ∷ b't' ∷ []) ∷ n.sent))
  answer_returns text v t r away dest server has =
      let asked : List Out = to_server (b't' ∷ b't' ∷ []) ∷ n.sent in
      let (e, known, via) = noted-HasVia (get_index_from_ip p k.src_can_ip_str) has in
      subst (Sent (process_pack p k hw i n))
        (ap (λ x. reply_frames p k hw i n x asked) (server asked) ∙ rw (known, via.0, via.1))
        (data_answered p k hw i n last v t r away dest)
