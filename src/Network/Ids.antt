-- ===== src/Network/Ids.antt =====
-- The ids in the frames of a network and in the slots of its nodes, while no char is too small for them.
use odr.Prelude.{
  ℕ, ◌≡◌, ◌∙◌, sym, subst, Bool, true, not, List, [], ◌∷◌, some, arith, All, inl, inr,
}
use odr.Prelude.Int.{ℤ, pos, ◌+ℤ◌, ◌≤ℤ◌, ◌==ℤ◌, ==ℤ_ne, int_laws}
use odr.Structs.{OdrPack, OdrReq, Out}
use odr.Table.{Rtbl, get_index_from_ip}
use odr.Link.Sent.{Carries, Anyone, All-Carries}
use odr.Node.{Node, latest_at}
use odr.Odr.Rreq.{dest_rrep, count_hop, known_rrep, answered_rreq}
use odr.Odr.Rrep.{request_data, relayed_rrep}
use odr.Odr.Data.{reply_data}
use odr.Odr.Emits.{Emits}
use odr.Odr.Locals.{SameLocals, process_pack-SameLocals}
use odr.Odr.Spread.{process_pack-sent}
use odr.Odr.Tables.{process_pack-table}
use odr.Main.{
  FrameIn, request, running, get_can_ip, on_frame, on_datagram, payload_packet, rreq_packet,
  addressed, read_request,
}
use odr.Main.Asks.{handle_request-sent, handle_request-running, handle_request-id}
use odr.Main.Slots.{Span, admits_frame, process_pack-Span}
use odr.Main.Once.{handle_request-other_slot}
use odr.Network.{World, Net, In, received, Step, hear, ask}
use odr.Network.Steps.{on_frame-Ensures, on_datagram-handled, with_node-all}

-- An id that a char holds.
abbrev pub Small : OdrPack → Type 0
Small k = k.rreq.broadcast_id ≤ℤ pos 127

Emits-Small : (k : OdrPack) (t : Rtbl) → Small k → Emits Small k t
unfolding dest_rrep count_hop known_rrep answered_rreq request_data relayed_rrep reply_data
Emits-Small k t small = record {
  itself = small;
  counted = small;
  answer = small;
  known = λ j e h. small;
  marked = λ j e h. small;
  relayed = small;
  request = λ n. small;
  reply = λ b. small;
}

pub In-Small :
    (o : Out) (s : List Out) → All (Carries Small Anyone) s → In o s → Carries Small Anyone o
In-Small o [] h i = elim i [ ]
In-Small o (x ∷ s) h (inl e) = subst (Carries Small Anyone) (sym e) h.0
In-Small o (x ∷ s) h (inr i) = In-Small o s h.1 i

-- The running number of a node only grows.
abbrev pub Grows : Node → Node → Type 0
Grows n m = n.running_broadcast_no ≤ℤ m.running_broadcast_no

module _ (w : World) where
  pub Step-Grows : {c d : Net} → Step w c d → (v : ℕ) → Grows (c v) (d v)
  Step-Grows {c} (hear s v f i m sent heard go) =
      with_node-all (λ u. Grows (c u)) c v m (λ u. omega arith)
        (let l : SameLocals (c v) m =
            on_frame-Ensures (w.platform v) (SameLocals (c v)) (received f i) (c v) m
              (process_pack-SameLocals (w.platform v) f.packet f.h_source i (c v)) go in
          rw (l.running) (omega arith))
  Step-Grows {c} (ask v addr r m go) =
      with_node-all (λ u. Grows (c u)) c v m (λ u. omega arith)
        (let e : m.running_broadcast_no ≡ (c v).running_broadcast_no +ℤ pos 1 =
            handle_request-running (w.platform v) addr r (c v) m
              (on_datagram-handled (w.platform v) addr r (c v) m go) in
          rw e (omega int_laws))

module _ (w : World) (j : ℤ) where
  -- The node is not the one that the slot `j` stands for.
  abbrev pub elsewhere : ℕ → Bool
  elsewhere v = let p = w.platform v in not (get_index_from_ip p (get_can_ip p) ==ℤ j)

  -- Where another node than the source records ids that chars hold, and all frames have such ids.
  pub record IdsOk (v : ℕ) (n : Node) : Type 0 where
    pub slot : elsewhere v ≡ true → Span j (pos 0) n
    pub source : Small n.source_packet
    pub frames : All (Carries Small Anyone) n.sent

  module _ (v : ℕ) (f : FrameIn) (n m : Node) (small : Small f.packet)
      (go : on_frame (w.platform v) (some f) n ≡ running m) where
    pub hear-Span :
        (x : ℤ) → pos 0 ≤ℤ x → x ≤ℤ pos 127 → latest_at j n.latest_rreq ≡ some x → Span j x m
    hear-Span x lo hi e =
        let (y, at, le, top) =
          on_frame-Ensures (w.platform v)
            (Span j (pos (admits_frame (w.platform v) j (some f) n) +ℤ x)) f n m
            (process_pack-Span (w.platform v) j f n x (λ q. small) lo hi e) go in
        (y, at, omega int_laws, top)

    pub hear-IdsOk : IdsOk v n → IdsOk v m
    hear-IdsOk ok =
        let p = w.platform v in
        let k = f.packet in
        record {
          slot = λ other.
              let (x, at, lo, hi) = ok.slot other in
              let (y, at', le, top) = hear-Span x lo hi at in (y, at', omega arith, top);
          source =
              on_frame-Ensures p (λ u. Small u.source_packet) f n m
                (process_pack-table p (λ t x. Small x) k f.h_source f.sll_ifindex n ok.source
                  ok.source)
                go;
          frames =
              on_frame-Ensures p (λ u. All (Carries Small Anyone) u.sent) f n m
                (process_pack-sent p Small Anyone (All (Carries Small Anyone))
                  (All-Carries Small Anyone) k f.h_source f.sll_ifindex n
                  (λ r. Emits-Small k _ small) tt ok.frames)
                go;
        }

  module _ (v : ℕ) (addr : List ℕ) (r : OdrReq) (n m : Node)
      (go : on_datagram (w.platform v) (some (request addr r)) n ≡ running m) where
    pub ask-slot : elsewhere v ≡ true → latest_at j m.latest_rreq ≡ latest_at j n.latest_rreq
    ask-slot other =
        let own = get_index_from_ip (w.platform v) (get_can_ip (w.platform v)) in
        let ne = ==ℤ_ne own j (ground arith) in
        handle_request-other_slot (w.platform v) j (λ e. ne (sym e)) addr r n m
          (on_datagram-handled (w.platform v) addr r n m go)

    pub ask-IdsOk : m.running_broadcast_no ≤ℤ pos 128 → IdsOk v n → IdsOk v m
    unfolding payload_packet rreq_packet addressed read_request
    ask-IdsOk few ok =
        let p = w.platform v in
        let e = on_datagram-handled p addr r n m go in
        let up : m.running_broadcast_no ≡ n.running_broadcast_no +ℤ pos 1 =
          handle_request-running p addr r n m e in
        let top : n.running_broadcast_no +ℤ pos 1 ≤ℤ pos 128 = subst (λ z. z ≤ℤ pos 128) up few in
        let id : n.running_broadcast_no ≤ℤ pos 127 = omega int_laws in
        record {
          slot = λ other. let (x, at, lo, hi) = ok.slot other in (x, ask-slot other ∙ at, lo, hi);
          source = rw (handle_request-id p addr r n m e) id;
          frames =
              handle_request-sent p Small Anyone (All (Carries Small Anyone))
                (All-Carries Small Anyone) addr r n ok.source id ok.frames m e;
        }
