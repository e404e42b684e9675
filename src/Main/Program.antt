-- ===== src/Main/Program.antt =====
-- The whole of odr_aa19.c's main: the check of the arguments, the list of the interfaces, the start and the
-- loop.
use odr.Prelude.{
  ℕ, ◌+◌, ◌≡◌, ap, List, [], ◌∷◌, Option, none, some, All, length, ltb, if◌then◌else◌,
}
use odr.Prelude.Int.{ℤ}
use odr.Structs.{OdrPack}
use odr.Platform.{Platform, AddsLast}
use odr.Table.{get_index_from_ip}
use odr.Link.Frames.{Healthy}
use odr.Node.{Node}
use odr.Odr.Safe.{Slot}
use odr.Odr.Valid.{IsValid}
use odr.Hwaddrs.{Ifreq, get_hw_addrs_or_quit, fill_if_info_list}
use odr.Main.{Progress, Round, running, get_can_ip, start, loop}
use odr.Main.Loop.{RoundOk, start-IsValid, loop-runs}

-- `goto err` on the arguments, the exit without an interface, or the loop.
pub data Run : Type 0 where
  bad_arguments : Run
  no_interfaces : Run
  looped : Progress → Run

-- What the locals and buffers hold that main does not set.
pub record Unset : Type 0 where
  pub packet : OdrPack
  pub msg : List ℕ
  pub reply : List ℕ
  pub addr : List ℕ

-- The staleness parameter from the arguments behind the program's name, which argc counts too.
unfoldable pub staleness : (List ℕ → ℤ) → List (List ℕ) → Option ℤ
staleness atoi [] = none
staleness atoi (arg ∷ args) = if ltb 2 (1 + length (arg ∷ args)) then none else some (atoi arg)

unfoldable pub run_odr :
    Platform → (List ℕ → ℤ) → List (List ℕ) → List Ifreq → Unset → List Round → Run
run_odr p atoi args items u rs = elim (staleness atoi args) [
  | none ↦ bad_arguments
  | some sp ↦ elim (get_hw_addrs_or_quit items) [
    | none ↦ no_interfaces
    | some hwas ↦
        looped (loop p rs (start sp (fill_if_info_list p hwas []) u.packet u.msg u.reply u.addr))
  ]
]

module _ (p : Platform) (last : AddsLast p) (here : Slot (get_index_from_ip p (get_can_ip p)))
    (up : Healthy p) (name : List ℕ) (named : p.gethostname ≡ some name) where
  -- Started with one argument, on a machine with an interface, the program reaches its loop and
  -- is still in it after any sequence of rounds, with a valid state, where the frames have known
  -- types and sources with a slot, no datagram is an error, the node has a host name and a slot
  -- of its own, list_add adds last and every send succeeds.
  pub run_odr-runs :
      (atoi : List ℕ → ℤ) (arg : List ℕ) (item : Ifreq) (items : List Ifreq) (u : Unset)
      (rs : List Round)
      → All (RoundOk p last here) rs
      → (m : Node) × (run_odr p atoi (arg ∷ []) (item ∷ items) u rs ≡ looped (running m))
        × IsValid m
  unfolding run_odr staleness get_hw_addrs_or_quit
  run_odr-runs atoi arg item items u rs ok =
      let (m, go, v) =
        loop-runs p last here up name named rs _ ok
          (start-IsValid (atoi arg) _ u.packet u.msg u.reply u.addr) in
      (m, ap looped go, v)
