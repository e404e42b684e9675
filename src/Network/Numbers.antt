-- ===== src/Network/Numbers.antt =====
-- The numbers that a node gives to its RREQs, and the packets that it takes for its own.
use odr.Prelude.{
  ℕ, ◌≡◌, ◌≢◌, ◌∙◌, ◌==◌, ap, sym, subst, List, ◌∷◌, some, arith, Bool-cases, inl, inr,
}
use odr.Prelude.Int.{ℤ, pos, ◌+ℤ◌, ◌≤ℤ◌, ◌<ℤ◌, ◌==ℤ◌, ==ℤ_iff, ==ℤ_ne, to_char-small, int_laws}
use odr.Structs.{OdrPack, OdrReq, Frame, Out, to_link}
use odr.Table.{Rtbl, get_index_from_ip}
use odr.Link.Sent.{Carries, Anyone}
use odr.Node.{Node, latest_at}
use odr.Odr.Common.{note_sender}
use odr.Odr.Rreq.{dest_rrep, count_hop, known_rrep, answered_rreq}
use odr.Odr.Rrep.{request_data, relayed_rrep}
use odr.Odr.Data.{reply_data}
use odr.Odr.Emits.{Emits}
use odr.Odr.Flood.{latest_at-put, latest_at-put_other}
use odr.Odr.Frame.{SameTables}
use odr.Odr.Kept.{Records, process_pack-kept}
use odr.Odr.Locals.{SameLocals, process_pack-SameLocals}
use odr.Odr.Spread.{process_pack-sent}
use odr.Odr.Tables.{process_pack-table}
use odr.Main.{
  FrameIn, request, running, get_can_ip, on_frame, on_datagram, payload_packet, rreq_packet,
  addressed, read_request, packet_ip,
}
use odr.Main.Asks.{
  handle_request-sent, handle_request-running, handle_request-id, handle_request-latest,
}
use odr.Network.{World, In}
use odr.Network.Steps.{on_frame-Ensures, on_datagram-handled}

module _ (w : World) where
  abbrev pub own : ℕ → ℤ
  own v = get_index_from_ip (w.platform v) (get_can_ip (w.platform v))

  -- A packet that node `s` takes for its own has an id below `x`.
  abbrev pub Old : ℕ → ℤ → OdrPack → Type 0
  Old s x k = get_index_from_ip (w.platform s) k.src_can_ip_str ≡ own s → k.rreq.broadcast_id <ℤ x

  -- The frames among the messages are such packets.
  abbrev pub OldFrames : ℕ → ℤ → List Out → Type 0
  OldFrames s x t = (f : Frame) → In (to_link f) t → Old s x f.packet

  -- The running number of a node is above the last id that it gave, and its own slot is not far behind.
  pub record Numbering (v : ℕ) (n : Node) : Type 0 where
    pub positive : pos 0 ≤ℤ n.running_broadcast_no
    pub source : n.source_packet.rreq.broadcast_id <ℤ n.running_broadcast_no
    pub slot :
        (y : ℤ) × (latest_at (own v) n.latest_rreq ≡ some y)
        × (n.running_broadcast_no ≤ℤ y +ℤ pos 1)

  Emits-Old : (s : ℕ) (x : ℤ) (k : OdrPack) (t : Rtbl) → Old s x k → Emits (Old s x) k t
  unfolding dest_rrep count_hop known_rrep answered_rreq request_data relayed_rrep reply_data
  Emits-Old s x k t old = record {
    itself = old;
    counted = old;
    answer = old;
    known = λ j e h. old;
    marked = λ j e h. old;
    relayed = old;
    request = λ n. old;
    reply = λ b. old;
  }

  OldFrames-closed :
      (s : ℕ) (x : ℤ) (o : Out) (t : List Out)
      → Carries (Old s x) Anyone o
      → OldFrames s x t
      → OldFrames s x (o ∷ t)
  OldFrames-closed s x o t q h f (inl e) = subst (Carries (Old s x) Anyone) (sym e) q
  OldFrames-closed s x o t q h f (inr i) = h f i

  module _ (v : ℕ) (f : FrameIn) (n m : Node)
      (go : on_frame (w.platform v) (some f) n ≡ running m) where
    pub hear-running : m.running_broadcast_no ≡ n.running_broadcast_no
    hear-running =
        let l : SameLocals n m =
          on_frame-Ensures (w.platform v) (SameLocals n) f n m
            (process_pack-SameLocals (w.platform v) f.packet f.h_source f.sll_ifindex n) go in
        l.running

    pub hear-OldFrames :
        (s : ℕ) (x : ℤ) → Old s x f.packet → OldFrames s x n.sent → OldFrames s x m.sent
    hear-OldFrames s x old h =
        on_frame-Ensures (w.platform v) (λ u. OldFrames s x u.sent) f n m
          (process_pack-sent (w.platform v) (Old s x) Anyone (OldFrames s x) (OldFrames-closed s x)
            f.packet f.h_source f.sll_ifindex n (λ r. Emits-Old s x f.packet _ old) tt h)
          go

    -- The own slot is not behind, since the node's own RREQs are not new.
    hear-slot :
        (x : ℤ)
        → Old v x f.packet
        → (y : ℤ) × (latest_at (own v) n.latest_rreq ≡ some y) × (x ≤ℤ y +ℤ pos 1)
        → (y : ℤ) × (latest_at (own v) m.latest_rreq ≡ some y) × (x ≤ℤ y +ℤ pos 1)
    unfolding note_sender
    hear-slot x old h =
        on_frame-Ensures (w.platform v) P f n m
          (process_pack-kept (w.platform v) P same f.packet records f.h_source f.sll_ifindex n h
            (λ r. h))
          go
      where
        P : Node → Type 0
        P u = (y : ℤ) × (latest_at (own v) u.latest_rreq ≡ some y) × (x ≤ℤ y +ℤ pos 1)

        same : (u t : Node) → SameTables u t → P u → P t
        same u t s (y, e, b) = (y, rw (s.1) e, b)

        records : Records (w.platform v) f.packet P
        records u z l at new wrote (y, e, b) =
            let i = get_index_from_ip (w.platform v) f.packet.src_can_ip_str in
            elim (Bool-cases (i ==ℤ own v)) [
              | inl hit ↦
                  let mine = (==ℤ_iff i (own v)).0 hit in
                  let below = old mine in
                  let q : some z ≡ some y = sym at ∙ ap (λ j. latest_at j u.latest_rreq) mine ∙ e in
                  let same : z ≡ y = ground arith in
                  let late : y <ℤ f.packet.rreq.broadcast_id =
                    subst (λ t. t <ℤ f.packet.rreq.broadcast_id) same new in
                  absurd (omega int_laws)
              | inr miss ↦ (
                y,
                latest_at-put_other i (own v) f.packet.rreq.broadcast_id u.latest_rreq l
                      (λ q. ==ℤ_ne i (own v) miss (sym q)) wrote
                    ∙ e,
                b,
              )
            ]

    pub hear-Numbering : Old v n.running_broadcast_no f.packet → Numbering v n → Numbering v m
    hear-Numbering old h =
        let p = w.platform v in
        let k = f.packet in
        let x = n.running_broadcast_no in
        record {
          positive = rw hear-running h.positive;
          source = rw hear-running (
              on_frame-Ensures p (λ u. u.source_packet.rreq.broadcast_id <ℤ x) f n m
                (process_pack-table p (λ t q. q.rreq.broadcast_id <ℤ x) k f.h_source f.sll_ifindex n
                  h.source h.source)
                go);
          slot = rw hear-running (hear-slot x old h.slot);
        }

  module _ (v : ℕ) (addr : List ℕ) (r : OdrReq) (n m : Node)
      (go : on_datagram (w.platform v) (some (request addr r)) n ≡ running m) where
    ask-up : m.running_broadcast_no ≡ n.running_broadcast_no +ℤ pos 1
    ask-up =
        handle_request-running (w.platform v) addr r n m
          (on_datagram-handled (w.platform v) addr r n m go)

    pub ask-Numbering : m.running_broadcast_no ≤ℤ pos 127 → Numbering v n → Numbering v m
    ask-Numbering few h =
        let p = w.platform v in
        let e = on_datagram-handled p addr r n m go in
        let next = n.running_broadcast_no +ℤ pos 1 in
        let lo = h.positive in
        let hi : next ≤ℤ pos 127 = subst (λ z. z ≤ℤ pos 127) ask-up few in
        record {
          positive = rw ask-up (omega int_laws);
          source = rw (handle_request-id p addr r n m e, ask-up) (omega int_laws);
          slot = (
            next,
            latest_at-put (own v) next n.latest_rreq m.latest_rreq
                  (handle_request-latest p addr r n m e)
                ∙ ap some (to_char-small next (omega int_laws) hi),
            rw ask-up (omega int_laws),
          );
        }

    -- What a request sends is no packet of another node, and has an id below the new number.
    pub ask-OldFrames :
        (s : ℕ) (x : ℤ)
        → (v ≢ s → get_index_from_ip (w.platform s) (packet_ip (get_can_ip (w.platform v))) ≢ own s)
        → (v ≡ s → Numbering v n × (m.running_broadcast_no ≤ℤ x))
        → OldFrames s x n.sent
        → OldFrames s x m.sent
    unfolding payload_packet rreq_packet addressed read_request
    ask-OldFrames s x others mine h = elim (Bool-cases (v == s)) [
      | inl same ↦
          let e : v ≡ s = ground arith in
          let (h', top) = mine e in
          let below = h'.source in
          let top' : n.running_broadcast_no +ℤ pos 1 ≤ℤ x = subst (λ z. z ≤ℤ x) ask-up top in
          sends (λ q. omega int_laws) (λ q. omega int_laws)
      | inr other ↦
          let ne : v ≢ s = (λ e. absurd (ground arith)) in
          sends (λ q. absurd (others ne q)) (λ q. absurd (others ne q))
    ]
      where
        sends :
            Old s x (payload_packet (addressed (w.platform v) (read_request addr r n)))
            → Old s x (
                rreq_packet n.running_broadcast_no
                  (addressed (w.platform v) (read_request addr r n)))
            → OldFrames s x m.sent
        sends q q' =
            handle_request-sent (w.platform v) (Old s x) Anyone (OldFrames s x)
              (OldFrames-closed s x) addr r n q q' h m
              (on_datagram-handled (w.platform v) addr r n m go)
