-- ===== src/Network/Hops.antt =====
-- The hop counts of all frames of the network.
use odr.Prelude.{ℕ, ◌≡◌, ◌∙◌, List, [], ◌∷◌, some, arith, All, Bool-cases, inl, inr}
use odr.Prelude.Int.{ℤ, pos, ◌≤ℤ◌, ◌==ℤ◌, int_laws}
use odr.Structs.{OdrPack, OdrReq, Entry}
use odr.Platform.{Platform, AddsLast}
use odr.Table.{Rtbl, first_with, update_rtbl_entry}
use odr.Table.Valid.{Bounded, InRange, update-IsValid}
use odr.Link.Sent.{Carries, Anyone, All-Carries}
use odr.Node.{Node}
use odr.Odr.Rreq.{dest_rrep, count_hop, known_rrep, answered_rreq}
use odr.Odr.Rrep.{request_data, relayed_rrep}
use odr.Odr.Data.{reply_data}
use odr.Odr.Emits.{Emits}
use odr.Odr.Spread.{process_pack-sent}
use odr.Odr.Tables.{process_pack-table}
use odr.Odr.Valid.{IsValid, process_pack-IsValid}
use odr.Main.{
  FrameIn, request, running, on_frame, on_datagram, payload_packet, rreq_packet, addressed,
  read_request,
}
use odr.Main.Asks.{handle_request-source, handle_request-slots, handle_request-sent}
use odr.Main.Routes.{handle_request-table}
use odr.Network.{World, Net, received, Step, hear, ask, Reach, here, next}
use odr.Network.Steps.{on_frame-Ensures, on_datagram-handled, with_node-all}

-- Two above MAXH for an RREQ, which an answering node counts twice, and one for an RREP.
abbrev pub HopBound : OdrPack → Type 0
HopBound k = (k.rreq.hop ≤ℤ pos 17) × (k.rrep.hop ≤ℤ pos 16)

-- A valid node, with such hop counts in the packet kept from the last request and in all frames that were
-- sent.
pub record HopsOk (n : Node) : Type 0 where
  pub valid : IsValid n
  pub source : HopBound n.source_packet
  pub frames : All (Carries HopBound Anyone) n.sent

first-Bounded :
    (j : ℤ) (es : List Entry) (e : Entry) → All Bounded es → first_with j es ≡ some e → Bounded e
unfolding first_with
first-Bounded j [] e b h = absurd (ground arith)
first-Bounded j (x ∷ es) e b h = elim (Bool-cases (x.key ==ℤ j)) [
  | inl hit ↦ ground (arith, b.0)
  | inr miss ↦ first-Bounded j es e b.1 (ground arith)
]

Emits-HopBound : (k : OdrPack) (t : Rtbl) → InRange k → All Bounded t.entries → Emits HopBound k t
unfolding dest_rrep count_hop known_rrep answered_rreq request_data relayed_rrep reply_data
Emits-HopBound k t r b = record {
  itself = (omega arith, omega arith);
  counted = (omega int_laws, omega arith);
  answer = (omega arith, omega arith);
  known = λ j e h.
      let top : Bounded e = first-Bounded j t.entries e b h in (omega int_laws, omega int_laws);
  marked = λ j e h.
      let top : Bounded e = first-Bounded j t.entries e b h in (omega int_laws, omega int_laws);
  relayed = (omega arith, omega int_laws);
  request = λ n. (omega arith, omega arith);
  reply = λ s. (omega arith, omega arith);
}

module _ (p : Platform) (last : AddsLast p) (n m : Node) (ok : HopsOk n) where
  on_frame-HopsOk : (f : FrameIn) → on_frame p (some f) n ≡ running m → HopsOk m
  on_frame-HopsOk f h =
      let k = f.packet in
      let hw = f.h_source in
      let i = f.sll_ifindex in
      let emits = λ (r : InRange k).
        Emits-HopBound k (update_rtbl_entry p k hw i n.rtbl) r
          (update-IsValid p last k hw i n.rtbl r ok.valid.table).bounded in
      record {
        valid = on_frame-Ensures p IsValid f n m (process_pack-IsValid p last k hw i n ok.valid) h;
        source =
            on_frame-Ensures p (λ u. HopBound u.source_packet) f n m
              (process_pack-table p (λ t x. HopBound x) k hw i n ok.source ok.source) h;
        frames =
            on_frame-Ensures p (λ u. All (Carries HopBound Anyone) u.sent) f n m
              (process_pack-sent p HopBound Anyone (All (Carries HopBound Anyone))
                (All-Carries HopBound Anyone) k hw i n emits tt ok.frames)
              h;
      }

  on_datagram-HopsOk :
      (addr : List ℕ) (r : OdrReq) → on_datagram p (some (request addr r)) n ≡ running m → HopsOk m
  unfolding payload_packet rreq_packet addressed read_request
  on_datagram-HopsOk addr r h =
      let e = on_datagram-handled p addr r n m h in
      let source = handle_request-source p addr r n m e in
      record {
        valid = record {
          table = rw (handle_request-table p addr r n m e) ok.valid.table;
          slots = handle_request-slots p addr r n m e ∙ ok.valid.slots;
        };
        source = ground (arith, source);
        frames =
            handle_request-sent p HopBound Anyone (All (Carries HopBound Anyone))
              (All-Carries HopBound Anyone) addr r n ok.source (omega arith, omega arith) ok.frames
              m e;
      }

module _ (w : World) (last : (v : ℕ) → AddsLast (w.platform v)) where
  Step-HopsOk : {c d : Net} → Step w c d → ((v : ℕ) → HopsOk (c v)) → (v : ℕ) → HopsOk (d v)
  Step-HopsOk {c} (hear s v f i m sent heard go) ok =
      with_node-all (λ u. HopsOk) c v m ok
        (on_frame-HopsOk (w.platform v) (last v) (c v) m (ok v) (received f i) go)
  Step-HopsOk {c} (ask v addr r m go) ok =
      with_node-all (λ u. HopsOk) c v m ok
        (on_datagram-HopsOk (w.platform v) (last v) (c v) m (ok v) addr r go)

  -- However the nodes of a network send and receive, every hop count stays small: if at first
  -- every node has a valid state, RREQ hop counts of at most 17 and RREP hop counts of at most 16
  -- in its kept packet and in the frames that it sent, then so has every node in every state that
  -- is reached, where list_add adds last at every node.
  pub Reach-HopsOk : {c d : Net} → Reach w c d → ((v : ℕ) → HopsOk (c v)) → (v : ℕ) → HopsOk (d v)
  Reach-HopsOk here ok = ok
  Reach-HopsOk (next r st) ok = Step-HopsOk st (Reach-HopsOk r ok)
