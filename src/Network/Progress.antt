-- ===== src/Network/Progress.antt =====
-- What the nodes of a network send to each other, and how that keeps every process in its loop.
use odr.Prelude.{ℕ, ◌≡◌, ◌∙◌, refl, sym, subst, List, [], ◌∷◌, some, All, inl, inr}
use odr.Prelude.Int.{ℤ}
use odr.Structs.{OdrPack, OdrReq, Out, Frame, to_link}
use odr.Platform.{AddsLast}
use odr.Table.{Rtbl, get_index_from_ip}
use odr.Link.Frames.{Healthy}
use odr.Link.Sent.{Carries, Anyone, All-Carries}
use odr.Node.{Node}
use odr.Odr.Rreq.{dest_rrep, count_hop, known_rrep, answered_rreq}
use odr.Odr.Rrep.{request_data, relayed_rrep}
use odr.Odr.Data.{reply_data}
use odr.Odr.Emits.{Emits}
use odr.Odr.Spread.{process_pack-sent}
use odr.Odr.Safe.{Slot}
use odr.Odr.Total.{KnownType}
use odr.Odr.Valid.{IsValid, process_pack-IsValid}
use odr.Main.{
  FrameIn, request, running, get_can_ip, packet_ip, on_frame, on_datagram, payload_packet,
  rreq_packet, addressed,
}
use odr.Main.Asks.{handle_request-slots, handle_request-sent}
use odr.Main.Routes.{handle_request-table}
use odr.Main.Loop.{on_frame-runs, on_datagram-runs}
use odr.Network.{World, Net, In, received, Step, hear, ask, Reach, here, next}
use odr.Network.Steps.{on_frame-Ensures, on_datagram-handled, with_node-all}

-- At each node list_add adds last, every send succeeds, the node has a host name and a slot of its own, and
-- the name service gives a slot for the address that each node writes into its packets.
pub record Sane (w : World) : Type 0 where
  pub last : (v : ℕ) → AddsLast (w.platform v)
  pub up : (v : ℕ) → Healthy (w.platform v)
  pub name : ℕ → List ℕ
  pub named : (v : ℕ) → (w.platform v).gethostname ≡ some (name v)
  pub own : (v : ℕ) → Slot (get_index_from_ip (w.platform v) (get_can_ip (w.platform v)))
  pub slots :
      (u v : ℕ) → Slot (get_index_from_ip (w.platform v) (packet_ip (get_can_ip (w.platform u))))

module _ (w : World) where
  -- A packet of a known type, whose source has a slot at every node.
  abbrev pub Sound : OdrPack → Type 0
  Sound k = KnownType k × ((v : ℕ) → Slot (get_index_from_ip (w.platform v) k.src_can_ip_str))

  -- A valid node that has sent such packets only.
  pub record NodeOk (n : Node) : Type 0 where
    pub valid : IsValid n
    pub frames : All (Carries Sound Anyone) n.sent

  In-Sound :
      (f : Frame) (s : List Out) → All (Carries Sound Anyone) s → In (to_link f) s → Sound f.packet
  In-Sound f [] h i = elim i [ ]
  In-Sound f (o ∷ s) h (inl e) = subst (Carries Sound Anyone) (sym e) h.0
  In-Sound f (o ∷ s) h (inr i) = In-Sound f s h.1 i

  Emits-Sound : (k : OdrPack) (t : Rtbl) → Sound k → Emits Sound k t
  unfolding dest_rrep count_hop known_rrep answered_rreq request_data relayed_rrep reply_data
  Emits-Sound k t (type, slots) = record {
    itself = (type, slots);
    counted = (type, slots);
    answer = (inr (inl refl), slots);
    known = λ j e h. (inr (inl refl), slots);
    marked = λ j e h. (inl refl, slots);
    relayed = (type, slots);
    request = λ n. (inr (inr refl), slots);
    reply = λ s. (type, slots);
  }

  module _ (sane : Sane w) where
    on_frame-NodeOk :
        (v : ℕ) (f : FrameIn) (n m : Node)
        → Sound f.packet
        → NodeOk n
        → on_frame (w.platform v) (some f) n ≡ running m
        → NodeOk m
    on_frame-NodeOk v f n m q ok h =
        let p = w.platform v in
        let k = f.packet in
        record {
          valid =
              on_frame-Ensures p IsValid f n m
                (process_pack-IsValid p (sane.last v) k f.h_source f.sll_ifindex n ok.valid) h;
          frames =
              on_frame-Ensures p (λ u. All (Carries Sound Anyone) u.sent) f n m
                (process_pack-sent p Sound Anyone (All (Carries Sound Anyone))
                  (All-Carries Sound Anyone) k f.h_source f.sll_ifindex n (λ r. Emits-Sound k _ q)
                  tt ok.frames)
                h;
        }

    on_datagram-NodeOk :
        (v : ℕ) (addr : List ℕ) (r : OdrReq) (n m : Node)
        → NodeOk n
        → on_datagram (w.platform v) (some (request addr r)) n ≡ running m
        → NodeOk m
    unfolding payload_packet rreq_packet addressed
    on_datagram-NodeOk v addr r n m ok h =
        let p = w.platform v in
        let e = on_datagram-handled p addr r n m h in
        record {
          valid = record {
            table = rw (handle_request-table p addr r n m e) ok.valid.table;
            slots = handle_request-slots p addr r n m e ∙ ok.valid.slots;
          };
          frames =
              handle_request-sent p Sound Anyone (All (Carries Sound Anyone))
                (All-Carries Sound Anyone) addr r n (inr (inr refl), sane.slots v)
                (inl refl, sane.slots v) ok.frames m e;
        }

    Step-NodeOk : {c d : Net} → Step w c d → ((v : ℕ) → NodeOk (c v)) → (v : ℕ) → NodeOk (d v)
    Step-NodeOk {c} (hear s v f i m sent heard go) ok =
        with_node-all (λ u. NodeOk) c v m ok
          (on_frame-NodeOk v (received f i) (c v) m (In-Sound f (c s).sent (ok s).frames sent)
            (ok v) go)
    Step-NodeOk {c} (ask v addr r m go) ok =
        with_node-all (λ u. NodeOk) c v m ok (on_datagram-NodeOk v addr r (c v) m (ok v) go)

    Reach-NodeOk : {c d : Net} → Reach w c d → ((v : ℕ) → NodeOk (c v)) → (v : ℕ) → NodeOk (d v)
    Reach-NodeOk here ok = ok
    Reach-NodeOk (next r st) ok = Step-NodeOk st (Reach-NodeOk r ok)

    -- No node of a network ever fails: in every state that the nodes reach by sending and
    -- receiving, each frame that some node has sent has one of the three types and leaves any
    -- node that hears it, through whatever interface, in its loop; a request of a client, in
    -- place of the frame, leaves that node in its loop too. At first every node has a valid state
    -- and has sent only packets of a known type whose source has a slot at every node; at each
    -- node list_add adds last, every send succeeds, the node has a host name and a slot of its
    -- own, and the name service gives a slot for the address that each node writes into its
    -- packets.
    pub Reach-runs :
        {c d : Net}
        → Reach w c d
        → ((v : ℕ) → NodeOk (c v))
        → (s v : ℕ) (f : Frame) (i : ℤ) (addr : List ℕ) (r : OdrReq) → In (to_link f) (d s).sent
        → KnownType f.packet
          × ((m : Node) × (on_frame (w.platform v) (some (received f i)) (d v) ≡ running m))
          × ((m : Node) × (on_datagram (w.platform v) (some (request addr r)) (d v) ≡ running m))
    Reach-runs {c} {d} reach ok s v f i addr r sent =
        let p = w.platform v in
        let oks = Reach-NodeOk reach ok in
        let (type, slots) = In-Sound f (d s).sent (oks s).frames sent in
        let (m, e, _) =
          on_frame-runs p (sane.last v) (sane.own v) (sane.up v) (sane.name v) (sane.named v)
            (some (received f i)) (d v) (type, slots v) (oks v).valid in
        let (m', e', _) =
          on_datagram-runs p (sane.last v) (sane.own v) (sane.up v) (sane.name v) (sane.named v)
            (some (request addr r)) (d v) tt (oks v).valid in
        (type, (m, e), (m', e'))
