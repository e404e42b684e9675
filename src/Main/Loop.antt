-- ===== src/Main/Loop.antt =====
-- The loop of `main`, over any sequence of rounds.
use odr.Prelude.{ℕ, ◌≡◌, refl, false, List, [], ◌∷◌, Option, none, some, arith, All}
use odr.Prelude.Int.{ℤ, ◌==ℤ◌}
use odr.Structs.{OdrPack, IfInfo, minus_one}
use odr.Platform.{Platform, AddsLast}
use odr.Table.{get_index_from_ip}
use odr.Link.Frames.{Healthy}
use odr.Node.{Node}
use odr.Odr.Common.{Outcome}
use odr.Odr.Safe.{Succeeds, Slot}
use odr.Odr.Total.{KnownType, process_pack-Succeeds}
use odr.Odr.Valid.{IsValid, process_pack-IsValid}
use odr.Odr.Cases.{Ensures}
use odr.Main.Request.{handle_request-IsValid}
use odr.Odr.{process_pack}
use odr.Main.{
  start, get_can_ip, FrameIn, Datagram, request, recv_error, Round, running, on_frame, on_datagram,
  round, loop,
}

pub start-IsValid :
    (sp : ℤ) (ifs : List IfInfo) (k : OdrPack) (msg reply addr : List ℕ)
    → IsValid (start sp ifs k msg reply addr)
unfolding start
start-IsValid sp ifs k msg reply addr = record {
  table = record { distinct = tt; bounded = tt };
  slots = refl;
}

module _ (p : Platform) (last : AddsLast p) (here : Slot (get_index_from_ip p (get_can_ip p))) where
  -- What a round can bring without ending the process.
  abbrev pub FrameOk : Option FrameIn → Type 0
  FrameOk none = Unit
  FrameOk (some f) = KnownType f.packet × Slot (get_index_from_ip p f.packet.src_can_ip_str)

  abbrev pub DatagramOk : Option Datagram → Type 0
  DatagramOk none = Unit
  DatagramOk (some (request addr r)) = Unit
  DatagramOk (some recv_error) = ⊥

  abbrev pub RoundOk : Round → Type 0
  RoundOk r = FrameOk r.frame × DatagramOk r.datagram

  module _ (up : Healthy p) (name : List ℕ) (named : p.gethostname ≡ some name) where
    pub on_frame-runs :
        (f : Option FrameIn) (n : Node)
        → FrameOk f
        → IsValid n
        → (m : Node) × (on_frame p f n ≡ running m) × IsValid m
    unfolding on_frame
    on_frame-runs none n h v = (n, refl, v)
    on_frame-runs (some f) n h v =
        finish (process_pack p f.packet f.h_source f.sll_ifindex n) refl
          (process_pack-Succeeds p last up name named f.packet f.h_source f.sll_ifindex n h.0 h.1 v)
          (process_pack-IsValid p last f.packet f.h_source f.sll_ifindex n v)
      where
        finish :
            (o : Outcome)
            → process_pack p f.packet f.h_source f.sll_ifindex n ≡ o
            → Succeeds o
            → Ensures IsValid o
            → (m : Node) × (on_frame p (some f) n ≡ running m) × IsValid m
        finish none e ok w = absurd ok
        finish (some (r, m)) e ok w =
            let fine : (r ==ℤ minus_one) ≡ false = ground arith in
            (m, rw (e, on_frame) (rw fine), w)

    pub on_datagram-runs :
        (d : Option Datagram) (n : Node)
        → DatagramOk d
        → IsValid n
        → (m : Node) × (on_datagram p d n ≡ running m) × IsValid m
    unfolding on_datagram
    on_datagram-runs none n h v = (n, refl, v)
    on_datagram-runs (some recv_error) n h v = absurd h
    on_datagram-runs (some (request addr r)) n h v =
        let (m, e, w) = handle_request-IsValid p addr r n v here in (m, rw (e, on_datagram), w)

    -- Over any sequence of rounds, from a valid state, the loop goes on and the state stays
    -- valid, where the frames have known types and sources with a slot, no datagram is an error,
    -- the node has a host name and a slot of its own, list_add adds last and every send succeeds.
    pub loop-runs :
        (rs : List Round) (n : Node)
        → All RoundOk rs
        → IsValid n
        → (m : Node) × (loop p rs n ≡ running m) × IsValid m
    unfolding loop round
    loop-runs [] n h v = (n, refl, v)
    loop-runs (r ∷ rs) n h v =
        let (m, e, w) = on_frame-runs r.frame n h.0.0 v in
        let (m', e', w') = on_datagram-runs r.datagram m h.0.1 w in
        let (m'', e'', w'') = loop-runs rs m' h.1 w' in (m'', rw (e, e', loop) e'', w'')
