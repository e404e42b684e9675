-- ===== src/Main/Routes.antt =====
-- The routes of a node over the rounds of the loop.
use odr.Prelude.{ℕ, ◌≡◌, subst, sym, List, some, arith, All}
use odr.Prelude.Int.{ℤ, ◌≤ℤ◌}
use odr.Structs.{OdrReq, Entry, OdrPack}
use odr.Platform.{Platform, AddsLast}
use odr.Table.{Rtbl, get_index_from_ip, update_rtbl_entry}
use odr.Table.Routes.{route}
use odr.Table.Progress.{update-never_worse}
use odr.Link.Frames.{Healthy}
use odr.Node.{Node}
use odr.Odr.Safe.{Slot}
use odr.Odr.Valid.{IsValid}
use odr.Odr.Tables.{process_pack-table}
use odr.Main.{get_can_ip, Round, running, handle_request, read_request, next_rreq, loop}
use odr.Main.Induction.{Leaves, Fits-All, AsksFrom-All, loop-Leaves}
use odr.Link.Sent.{Anyone}
use odr.Main.Loop.{RoundOk, loop-runs}

module _ (p : Platform) where
  -- A request leaves the table alone.
  pub handle_request-table :
      (addr : List ℕ) (r : OdrReq) (n m : Node)
      → handle_request p addr r n ≡ some m
      → m.rtbl ≡ n.rtbl
  unfolding handle_request read_request next_rreq
  handle_request-table addr r n m h = ground arith

module _ (p : Platform) (last : AddsLast p) (j h : ℤ) where
  -- The route to `j` is there, with at most `h` hops.
  abbrev Within : Rtbl → Type 0
  Within t = (e : Entry) × (route j t ≡ some e) × (e.hop ≤ℤ h)

  update-Within :
      (k : OdrPack) (hw : List ℕ) (i : ℤ) (t : Rtbl)
      → Within t
      → Within (update_rtbl_entry p k hw i t)
  update-Within k hw i t (e, r, b) =
      let (f, s, c) = update-never_worse p last k hw i t j e r in (f, s, omega arith)

  loop-Within :
      (rs : List Round) (n : Node) → Within n.rtbl → Leaves (λ m. Within m.rtbl) (loop p rs n)
  loop-Within rs n =
      loop-Leaves p (λ m. Within m.rtbl) (λ f. Unit) Anyone
        (λ f m q w.
          process_pack-table p (λ t x. Within t) f.packet f.h_source f.sll_ifindex m
            (update-Within f.packet f.h_source f.sll_ifindex m.rtbl w) w)
        (λ addr r u m s e w. subst Within (sym (handle_request-table p addr r u m e)) w) rs n
        (Fits-All rs) (AsksFrom-All rs)

module _ (p : Platform) (last : AddsLast p) (here : Slot (get_index_from_ip p (get_can_ip p)))
    (up : Healthy p) (name : List ℕ) (named : p.gethostname ≡ some name) where
  -- Over any sequence of rounds the loop goes on and no route that is there goes away or gets
  -- more hops, whatever frames and requests come, from a valid state, where the frames have known
  -- types and sources with a slot, no datagram is an error, the node has a host name and a slot
  -- of its own, list_add adds last and every send succeeds.
  pub loop-never_worse :
      (rs : List Round) (n : Node) (j : ℤ) (e : Entry)
      → All (RoundOk p last here) rs
      → IsValid n
      → route j n.rtbl ≡ some e
      → (m : Node) × (f : Entry) × (loop p rs n ≡ running m)
        × (route j m.rtbl ≡ some f)
        × (f.hop ≤ℤ e.hop)
  loop-never_worse rs n j e ok v r =
      let (m, go, w) = loop-runs p last here up name named rs n ok v in
      let (f, s, b) =
        subst (Leaves (λ u. Within p last j e.hop u.rtbl)) go
          (loop-Within p last j e.hop rs n (e, r, omega arith)) in
      (m, f, go, s, b)
