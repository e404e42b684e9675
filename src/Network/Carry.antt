-- ===== src/Network/Carry.antt =====
-- What a node on the way does with an RREP, a payload with the request, and the one with the answer.
use odr.Prelude.{ℕ, ◌≡◌, ◌≢◌, refl, sym, subst, ◌∙◌, List, some}
use odr.Prelude.Int.{ℤ, pos}
use odr.Structs.{OdrPack, type_data, minus_one}
use odr.Platform.{Platform, AddsLast}
use odr.Table.{Rtbl, get_index_from_ip}
use odr.Table.Routes.{route}
use odr.Table.Valid.{InRange}
use odr.Table.Senders.{Via}
use odr.Structs.{Entry}
use odr.Link.Frames.{push_all, unicast}
use odr.Node.{Node}
use odr.Odr.Common.{is_self_src, is_self_dest, note_sender}
use odr.Odr.Cases.{Ensures}
use odr.Odr.Data.{process_data}
use odr.Odr.Frame.{relay_data-keeps}
use odr.Odr.Valid.{IsValid, process_pack-IsValid}
use odr.Odr.Sends.{Sent, noted}
use odr.Odr.Return.{HasVia, noted-HasVia}
use odr.Odr.Payloads.{towards, data_relayed, process_pack-data}
use odr.Odr.{process_pack}
use odr.Odr.Runs.{Runs, Sent-Runs, Runs-Ensures}
use odr.Network.Trail.{Relay}
use odr.Table.Others.{request_other, answer_other}

-- What the strings of a packet say at a node.
abbrev pub key : Platform → List ℕ → ℤ
key p ip = get_index_from_ip p ip

-- A node on the way between two others, once it has handled the RREP: it knows the way to both ends.
pub record Carrier (r : Relay) (src dest : List ℕ) (n : Node) : Type 0 where
  pub valid : IsValid n
  pub back : HasVia (key r.platform src) r.hw r.ifindex n.rtbl
  pub on : HasVia (key r.platform dest) r.far_hw r.far_ifindex n.rtbl

-- The node is neither of the two ends.
pub record Between (p : Platform) (src dest : List ℕ) : Type 0 where
  pub last : AddsLast p
  pub not_src : is_self_src p src ≡ pos 0
  pub not_dest : is_self_dest p dest ≡ pos 0
  pub two_ends : key p src ≢ key p dest

module _ (r : Relay) (k : OdrPack) (n : Node)
    (x : Between r.platform k.src_can_ip_str k.dest_can_ip_str)
    (c : Carrier r k.src_can_ip_str k.dest_can_ip_str n) (t : k.type ≡ type_data)
    (ok : InRange k) where
  towards_dest :
      (hw : List ℕ) (i : ℤ)
      → k.src_dest ≡ pos 1
      → (u : Rtbl) → towards r.platform k hw i n u ≡ route (key r.platform k.dest_can_ip_str) u
  towards_dest hw i out u = rw out refl

  towards_src :
      (hw : List ℕ) (i : ℤ)
      → k.src_dest ≡ minus_one
      → (u : Rtbl) → towards r.platform k hw i n u ≡ route (key r.platform k.src_can_ip_str) u
  towards_src hw i home u = rw home refl

  relayed-table :
      (hw : List ℕ) (i : ℤ)
      → Ensures (λ m. m.rtbl ≡ noted r.platform k hw i n) (process_pack r.platform k hw i n)
  unfolding process_data note_sender
  relayed-table hw i = rw (process_pack-data r.platform k hw i n t ok) (
      rw (x.not_src, process_data)
        (rw (x.not_dest, process_data)
          (relay_data-keeps r.platform k (note_sender r.platform k hw i n)).0))

  -- The two directions: from a neighbour, with the route along which the payload goes.
  carried :
      (hw to : List ℕ) (i o : ℤ) (e : Entry)
      → towards r.platform k hw i n (noted r.platform k hw i n) ≡ some e
      → Via to o e
      → HasVia (key r.platform k.src_can_ip_str) r.hw r.ifindex (noted r.platform k hw i n)
      → HasVia (key r.platform k.dest_can_ip_str) r.far_hw r.far_ifindex (noted r.platform k hw i n)
      → (y : Runs
          (process_pack r.platform k hw i n)
          (push_all (unicast k to o n.if_info_list) n.sent))
        × Carrier r k.src_can_ip_str k.dest_can_ip_str y.after
  carried hw to i o e go via back on =
      let p = r.platform in
      let out = data_relayed p k hw i n x.last c.valid t ok x.not_src x.not_dest in
      let y =
        Sent-Runs (process_pack p k hw i n) _
          (subst (Sent (process_pack p k hw i n)) (rw (go, via.0, via.1)) out) in
      let same =
        Runs-Ensures (λ m. m.rtbl ≡ noted p k hw i n) (process_pack p k hw i n) _ y
          (relayed-table hw i) in
      (
        y,
        record {
          valid =
              Runs-Ensures IsValid (process_pack p k hw i n) _ y
                (process_pack-IsValid p x.last k hw i n c.valid);
          back = subst (HasVia (key p k.src_can_ip_str) r.hw r.ifindex) (sym same) back;
          on = subst (HasVia (key p k.dest_can_ip_str) r.far_hw r.far_ifindex) (sym same) on;
        },
      )

  -- The payload with the request comes from the side of the source and goes on to the other.
  pub request_carried :
      k.src_dest ≡ pos 1
      → (y : Runs
          (process_pack r.platform k r.hw r.ifindex n)
          (push_all (unicast k r.far_hw r.far_ifindex n.if_info_list) n.sent))
        × Carrier r k.src_can_ip_str k.dest_can_ip_str y.after
  request_carried out =
      let p = r.platform in
      let (e, known, via) = c.on in
      let stays =
        request_other p x.last k r.hw r.ifindex n.rtbl (key p k.dest_can_ip_str)
          c.valid.table.distinct t out (λ q. x.two_ends (sym q)) in
      carried r.hw r.far_hw r.ifindex r.far_ifindex e
        (towards_dest r.hw r.ifindex out (noted p k r.hw r.ifindex n) ∙ stays ∙ known) via
        (noted-HasVia p x.last k r.hw r.ifindex n (key p k.src_can_ip_str) c.back)
        (e, stays ∙ known, via)

  -- The one with the answer comes from the other side, and goes back.
  pub answer_carried :
      k.src_dest ≡ minus_one
      → (y : Runs
          (process_pack r.platform k r.far_hw r.far_ifindex n)
          (push_all (unicast k r.hw r.ifindex n.if_info_list) n.sent))
        × Carrier r k.src_can_ip_str k.dest_can_ip_str y.after
  answer_carried home =
      let p = r.platform in
      let (e, known, via) = c.back in
      let stays =
        answer_other p x.last k r.far_hw r.far_ifindex n.rtbl (key p k.src_can_ip_str)
          c.valid.table.distinct t home x.two_ends in
      carried r.far_hw r.hw r.far_ifindex r.ifindex e
        (towards_src r.far_hw r.far_ifindex home (noted p k r.far_hw r.far_ifindex n)
          ∙ stays
          ∙ known)
        via (e, stays ∙ known, via)
        (noted-HasVia p x.last k r.far_hw r.far_ifindex n (key p k.dest_can_ip_str) c.on)
