-- ===== src/Network/Serve.antt =====
-- The nodes on the way, from the RREP to the answer of the server.
use odr.Prelude.{◌≡◌, sym, ap, subst, ◌∙◌, false, List, [], ◌∷◌, arith}
use odr.Prelude.Int.{ℤ, pos, ◌+ℤ◌, ◌==ℤ◌, eq_of_parts}
use odr.Structs.{OdrPack, type_data, minus_one}
use odr.Table.Valid.{InRange}
use odr.Table.Keys.{update-known_dest}
use odr.Table.Routes.{route, route-known}
use odr.Table.Senders.{update-new}
use odr.Link.Frames.{push_all, unicast}
use odr.Odr.Common.{is_self_src, note_sender}
use odr.Odr.Rreq.{count_hop}
use odr.Odr.Rrep.{relayed_rrep, process_rrep}
use odr.Odr.Frame.{relay_rrep-keeps}
use odr.Odr.Cases.{Ensures}
use odr.Odr.Answers.{process_pack-rrep}
use odr.Odr.Valid.{IsValid, process_pack-IsValid}
use odr.Odr.Sends.{noted}
use odr.Odr.Return.{HasVia}
use odr.Odr.{process_pack}
use odr.Odr.Runs.{Runs, Sent-Runs, Runs-Ensures}
use odr.Network.Trail.{Relay, Passed, Trail}
use odr.Table.Others.{rrep_other}
use odr.Network.Reply.{back, Returning, Returning-Sent, Answers}
use odr.Network.Discovery.{back-Returned}
use odr.Network.Carry.{key, Carrier, Between, request_carried, answer_carried}

module _ (k a : OdrPack) (hops : ℤ) (r : Relay) (x : Passed k hops r) where
  -- The RREP, the payload `d` with the request, and the one with the answer, `e`, each sent on.
  pub record Served (d e : OdrPack) : Type 0 where
    pub rrep :
        Runs
          (process_pack r.platform a r.far_hw r.far_ifindex x.after)
          (push_all (unicast (relayed_rrep a) r.hw r.ifindex x.after.if_info_list) x.after.sent)
    pub request :
        Runs
          (process_pack r.platform d r.hw r.ifindex rrep.after)
          (push_all (unicast d r.far_hw r.far_ifindex rrep.after.if_info_list) rrep.after.sent)
    pub reply :
        Runs
          (process_pack r.platform e r.far_hw r.far_ifindex request.after)
          (push_all (unicast e r.hw r.ifindex request.after.if_info_list) request.after.sent)

  rrep-table :
      Returning k a r
      → Ensures
          (λ m. m.rtbl ≡ noted r.platform a r.far_hw r.far_ifindex x.after)
          (process_pack r.platform a r.far_hw r.far_ifindex x.after)
  unfolding process_rrep note_sender
  rrep-table y =
      let p = r.platform in
      let ret = is_self_src p a.src_can_ip_str in
      let away : (ret ==ℤ pos 1) ≡ false = ground (arith, y.elsewhere, eq_of_parts ret (pos 1)) in
      rw (process_pack-rrep p a r.far_hw r.far_ifindex x.after y.is_rrep y.in_range) (
        rw (away, process_rrep)
          (relay_rrep-keeps p ret a (note_sender p a r.far_hw r.far_ifindex x.after)).0)

  rrep-Carrier :
      Returning k a r
      → a.dest_can_ip_str ≡ k.dest_can_ip_str
      → (y : Runs
          (process_pack r.platform a r.far_hw r.far_ifindex x.after)
          (push_all (unicast (relayed_rrep a) r.hw r.ifindex x.after.if_info_list) x.after.sent))
        × Carrier r a.src_can_ip_str a.dest_can_ip_str y.after
  rrep-Carrier y same =
      let p = r.platform in
      let o = process_pack p a r.far_hw r.far_ifindex x.after in
      let u = noted p a r.far_hw r.far_ifindex x.after in
      let out = Sent-Runs o _ (Returning-Sent k a hops r x y) in
      let table = Runs-Ensures (λ m. m.rtbl ≡ u) o _ out (rrep-table y) in
      let stays : route (key p a.src_can_ip_str) u ≡ route (key p a.src_can_ip_str) x.after.rtbl =
        rrep_other p y.last a r.far_hw r.far_ifindex x.after.rtbl (key p a.src_can_ip_str)
          x.distinct y.is_rrep y.other_dest in
      let found = stays ∙ ap (λ l. route l x.after.rtbl) y.same_src ∙ x.known in
      let (e, f) =
        route-known (key p a.dest_can_ip_str) u.entries
          (update-known_dest p y.last a r.far_hw r.far_ifindex x.after.rtbl y.is_rrep) in
      let unseen = ap (λ s. route (key p s) x.after.rtbl) same ∙ x.unseen in
      let via =
        update-new p y.last a r.far_hw r.far_ifindex x.after.rtbl (key p a.dest_can_ip_str) e unseen
          f in
      (
        out,
        record {
          valid =
              Runs-Ensures IsValid o _ out
                (process_pack-IsValid p y.last a r.far_hw r.far_ifindex x.after x.valid);
          back =
              subst (HasVia (key p a.src_can_ip_str) r.hw r.ifindex) (sym table)
                (x.back, found, x.via);
          on =
              subst (HasVia (key p a.dest_can_ip_str) r.far_hw r.far_ifindex) (sym table)
                (e, f, via);
        },
      )

-- A payload between the ends of an RREP, in one direction.
pub record Payload (a d : OdrPack) (dir : ℤ) : Type 0 where
  pub is_data : d.type ≡ type_data
  pub src : d.src_can_ip_str ≡ a.src_can_ip_str
  pub dest : d.dest_can_ip_str ≡ a.dest_can_ip_str
  pub in_range : InRange d
  pub way : d.src_dest ≡ dir

same_ends :
    {a : OdrPack} (q d : OdrPack) (dir : ℤ)
    → Payload a d dir
    → q.src_can_ip_str ≡ a.src_can_ip_str
    → q.dest_can_ip_str ≡ a.dest_can_ip_str
    → Payload q d dir
same_ends q d dir x src dest = record {
  is_data = x.is_data;
  src = x.src ∙ sym src;
  dest = x.dest ∙ sym dest;
  in_range = x.in_range;
  way = x.way;
}

serve_one :
    (k a : OdrPack) (hops : ℤ) (r : Relay) (x : Passed k hops r) (d e : OdrPack)
    → Returning k a r
    → a.dest_can_ip_str ≡ k.dest_can_ip_str
    → Between r.platform a.src_can_ip_str a.dest_can_ip_str
    → Payload a d (pos 1)
    → Payload a e minus_one
    → Served k a hops r x d e
serve_one k a hops r x d e y same b pd pe =
    let (first, c) = rrep-Carrier k a hops r x y same in
    let (second, c') =
      request_carried r d first.after (rw (pd.src, pd.dest) b) (rw (pd.src, pd.dest) c) pd.is_data
        pd.in_range pd.way in
    let (third, _) =
      answer_carried r e second.after (rw (pe.src, pe.dest) b)
        (rw (pe.src ∙ sym pd.src, pe.dest ∙ sym pd.dest) c') pe.is_data pe.in_range pe.way in
    record { rrep = first; request = second; reply = third }

-- All nodes on the way.
abbrev pub Serves :
    (k : OdrPack) (hops : ℤ) (rs : List Relay)
    → Trail k hops rs
    → OdrPack
    → OdrPack
    → OdrPack
    → Type 0
Serves k hops [] t a d e = Unit
Serves k hops (r ∷ rs) (x, t) a d e =
    Served k (back rs a) hops r x d e × Serves (count_hop k) (hops +ℤ pos 1) rs t a d e

-- None of the nodes is one of the ends.
abbrev pub Betweens : OdrPack → List Relay → Type 0
Betweens a [] = Unit
Betweens a (r ∷ rs) = Between r.platform a.src_can_ip_str a.dest_can_ip_str × Betweens a rs

pub Trail-Serves :
    (k : OdrPack) (hops : ℤ) (rs : List Relay) (t : Trail k hops rs) (a d e : OdrPack)
    → Answers k rs a
    → a.dest_can_ip_str ≡ k.dest_can_ip_str
    → Betweens a rs
    → Payload a d (pos 1)
    → Payload a e minus_one
    → Serves k hops rs t a d e
unfolding count_hop
Trail-Serves k hops [] t a d e y same b pd pe = tt
Trail-Serves k hops (r ∷ rs) (x, t) a d e (y, ys) same (b, bs) pd pe =
    let f = back-Returned a rs in
    (
      serve_one k (back rs a) hops r x d e y (f.dest ∙ same) (rw (f.src, f.dest) b)
          (same_ends (back rs a) d (pos 1) pd f.src f.dest)
          (same_ends (back rs a) e minus_one pe f.src f.dest),
      Trail-Serves (count_hop k) (hops +ℤ pos 1) rs t a d e ys same bs pd pe,
    )
