-- ===== src/Network.antt =====
-- The ODR processes of all nodes, as one system. A frame that a process has sent can reach any node that
-- hears it, at any later time, in any order, more than once or never.
pub mod Steps
pub mod Hops
pub mod Neighbours
pub mod Trail
pub mod Reply
pub mod Progress
pub mod Discovery
pub mod Carry
pub mod Serve
pub mod Exchange
pub mod Ids
pub mod Copies
pub mod Numbers
pub mod Own
pub mod Path
pub mod Reaches
use odr.Prelude.{ℕ, ◌≡◌, List, some, ◌==◌, if◌then◌else◌}
use odr.Prelude.Int.{ℤ}
use odr.Structs.{OdrReq, Frame, to_link}
use odr.Platform.{Platform}
pub use odr.Link.Sent.{In}
use odr.Node.{Node}
use odr.Main.{FrameIn, request, running, on_frame, on_datagram}

-- The platform of each node, and the links: a frame that node `s` sends is heard by node `v` at its
-- interface `i`.
pub record World : Type 1 where
  pub platform : ℕ → Platform
  pub hears : ℕ → Frame → ℕ → ℤ → Type 0

-- The state of each process.
abbrev pub Net : Type 0
Net = ℕ → Node

abbrev pub with_node : ℕ → Node → Net → Net
with_node v m c w = if v == w then m else c w

-- The frame as the process reads it.
abbrev pub received : Frame → ℤ → FrameIn
received f i = record { packet = f.packet; h_source = f.h_source; sll_ifindex = i }

-- A process handles a frame or a request, and goes on.
pub data Step (w : World) (c : Net) : Net → Type 0 where
  hear :
      (s v : ℕ) (f : Frame) (i : ℤ) (m : Node)
      → In (to_link f) (c s).sent
      → w.hears s f v i
      → on_frame (w.platform v) (some (received f i)) (c v) ≡ running m
      → Step w c (with_node v m c)
  ask :
      (v : ℕ) (addr : List ℕ) (r : OdrReq) (m : Node)
      → on_datagram (w.platform v) (some (request addr r)) (c v) ≡ running m
      → Step w c (with_node v m c)

pub data Reach (w : World) (c : Net) : Net → Type 0 where
  here : Reach w c c
  next : {d e : Net} → Reach w c d → Step w d e → Reach w c e
