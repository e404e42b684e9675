-- ===== src/Network/Reply.antt =====
-- The way of the reply, back over the nodes that an RREQ went by.
use odr.Prelude.{◌≡◌, ◌≢◌, ap, subst, ◌∙◌, List, [], ◌∷◌, some}
use odr.Prelude.Int.{ℤ, pos, ◌+ℤ◌}
use odr.Structs.{OdrPack, type_rrep}
use odr.Platform.{AddsLast}
use odr.Table.{get_index_from_ip}
use odr.Table.Valid.{InRange}
use odr.Table.Routes.{route}
use odr.Link.Frames.{push_all, unicast}
use odr.Odr.Common.{is_self_src}
use odr.Odr.Rreq.{count_hop}
use odr.Odr.Rrep.{relayed_rrep}
use odr.Odr.Sends.{Sent, noted}
use odr.Odr.Answers.{rrep_relayed}
use odr.Odr.{process_pack}
use odr.Table.Others.{rrep_other}
use odr.Network.Trail.{Relay, Passed, Trail}

-- The RREP that a node receives, if `a` reaches the last of the nodes behind it.
abbrev pub back : List Relay → OdrPack → OdrPack
back [] a = a
back (r ∷ rs) a = relayed_rrep (back rs a)

-- The reply to `k` at a node that is on the way to the one that asked.
pub record Returning (k a : OdrPack) (r : Relay) : Type 0 where
  pub last : AddsLast r.platform
  pub is_rrep : a.type ≡ type_rrep
  pub in_range : InRange a
  pub elsewhere : is_self_src r.platform a.src_can_ip_str ≢ pos 1
  pub same_src :
      get_index_from_ip r.platform a.src_can_ip_str ≡ get_index_from_ip r.platform k.src_can_ip_str
  pub other_dest :
      get_index_from_ip r.platform a.src_can_ip_str ≢ get_index_from_ip r.platform a.dest_can_ip_str

abbrev pub Answers : OdrPack → List Relay → OdrPack → Type 0
Answers k [] a = Unit
Answers k (r ∷ rs) a = Returning k (back rs a) r × Answers (count_hop k) rs a

-- Each node sends the reply to the node that it heard the RREQ from, through the same interface.
abbrev pub Return : (k : OdrPack) (hops : ℤ) (rs : List Relay) → Trail k hops rs → OdrPack → Type 0
Return k hops [] t a = Unit
Return k hops (r ∷ rs) (x, t) a =
    Sent (process_pack r.platform (back rs a) r.far_hw r.far_ifindex x.after) (
      push_all (unicast (relayed_rrep (back rs a)) r.hw r.ifindex x.after.if_info_list)
        x.after.sent)
    × Return (count_hop k) (hops +ℤ pos 1) rs t a

pub Returning-Sent :
    (k a : OdrPack) (hops : ℤ) (r : Relay) (x : Passed k hops r)
    → Returning k a r
    → Sent
        (process_pack r.platform a r.far_hw r.far_ifindex x.after)
        (push_all (unicast (relayed_rrep a) r.hw r.ifindex x.after.if_info_list) x.after.sent)
Returning-Sent k a hops r x y =
    let p = r.platform in
    let j = get_index_from_ip p a.src_can_ip_str in
    let found : route j (noted p a r.far_hw r.far_ifindex x.after) ≡ some x.back =
      rrep_other p y.last a r.far_hw r.far_ifindex x.after.rtbl j x.distinct y.is_rrep y.other_dest
      ∙ ap (λ l. route l x.after.rtbl) y.same_src
      ∙ x.known in
    let out = rrep_relayed p a r.far_hw r.far_ifindex x.after y.is_rrep y.in_range y.elsewhere in
    subst (Sent (process_pack p a r.far_hw r.far_ifindex x.after)) (rw (found, x.via.0, x.via.1))
      out

pub Trail-Return :
    (k : OdrPack) (hops : ℤ) (rs : List Relay) (t : Trail k hops rs) (a : OdrPack)
    → Answers k rs a
    → Return k hops rs t a
Trail-Return k hops [] t a y = tt
Trail-Return k hops (r ∷ rs) (x, t) a (y, ys) =
    (Returning-Sent k (back rs a) hops r x y, Trail-Return (count_hop k) (hops +ℤ pos 1) rs t a ys)
