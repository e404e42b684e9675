-- ===== src/Odr/Uncounted.antt =====
-- The hop count of a payload: the nodes on its way do not count it, and each takes it for the length of its
-- route to the source.
use odr.Prelude.{
  ℕ, ◌≡◌, ◌≢◌, refl, ap, ◌∙◌, Bool, true, false, List, Option, some, Bool-cases, inl, inr,
  if◌then◌else◌,
}
use odr.Prelude.Int.{ℤ, pos, ltb_ℤ, ◌-ℤ◌, ==ℤ_refl}
use odr.Structs.{OdrPack, Entry, type_data}
use odr.Platform.{Platform, AddsLast}
use odr.Table.{Offer, get_index_from_ip, rreq_offer}
use odr.Table.Valid.{InRange}
use odr.Table.Routes.{route}
use odr.Table.Map.{Map, view, put, unless_ended, revise, refreshed, updated_map}
use odr.Table.Refines.{update-refines}
use odr.Table.Others.{request_other}
use odr.Link.Frames.{push_all, unicast, payload_frames}
use odr.Node.{Node}
use odr.Odr.Common.{note_sender, is_self_dest, is_self_src}
use odr.Odr.Data.{relay_data, process_data}
use odr.Odr.Frame.{relay_data-keeps}
use odr.Odr.Valid.{IsValid}
use odr.Odr.Sends.{Sent-state, noted}
use odr.Odr.Payloads.{towards, process_pack-data, data_relayed}
use odr.Odr.{process_pack}

-- The smaller of the two hop counts.
abbrev pub less_of : ℤ → ℤ → ℤ
less_of h g = if ltb_ℤ h g then h else g

-- A route of a key in a map, with a hop count.
abbrev HasHop : ℤ → ℤ → Map → Type 0
HasHop j h m = (f : Entry) × (m.find j ≡ some f) × (f.hop ≡ h)

put_self : (j : ℤ) (e : Entry) (f : ℤ → Option Entry) → put j e f j ≡ some e
put_self j e f = rw (==ℤ_refl j)

module _ (p : Platform) where
  revise-HasHop :
      (o : Offer) (e : Entry) (m : Map)
      → o.stale_hop ≡ o.hop
      → m.find o.key ≡ some e
      → HasHop o.key (less_of o.hop e.hop) (revise p o e m).1
  unfolding revise
  revise-HasHop o e m same h = elim (Bool-cases (ltb_ℤ m.sp (p.clock m.reads -ℤ e.ts))) [
    | inl stale ↦ rw (stale, revise) (_, put_self o.key _ m.find, ap (λ s. less_of s e.hop) same)
    | inr fresh ↦
        rw (fresh, revise)
          (elim (Bool-cases (ltb_ℤ o.hop e.hop)) [
            | inl short ↦ rw (short, revise) (_, put_self o.key _ m.find, refl)
            | inr long ↦ rw (long, revise) (e, h, refl)
          ])
  ]

  refreshed-HasHop :
      (o : Offer) (e : Entry) (m : Map)
      → o.stale_hop ≡ o.hop
      → m.find o.key ≡ some e
      → HasHop o.key (less_of o.hop e.hop) (refreshed p o m).1
  unfolding refreshed
  refreshed-HasHop o e m same h = rw (h, refreshed) (revise-HasHop o e m same h)

  data-HasHop :
      (k : OdrPack) (hw : List ℕ) (i : ℤ) (m : Map) (e : Entry)
      → k.type ≡ type_data
      → k.src_dest ≡ pos 1
      → m.find (get_index_from_ip p k.src_can_ip_str) ≡ some e
      → HasHop
          (get_index_from_ip p k.src_can_ip_str)
          (less_of k.rreq.hop e.hop)
          (updated_map p k hw i m)
  unfolding updated_map rreq_offer
  data-HasHop k hw i m e t d h =
      let o = rreq_offer p k hw i in
      rw (t, d) (ended (refreshed p o m) (refreshed-HasHop o e m refl h))
    where
      ended :
          (x : Bool × Map)
          → HasHop (get_index_from_ip p k.src_can_ip_str) (less_of k.rreq.hop e.hop) x.1
          → HasHop
              (get_index_from_ip p k.src_can_ip_str)
              (less_of k.rreq.hop e.hop)
              (unless_ended (λ u. u) x)
      ended (true, u) r = r
      ended (false, u) r = r

  module _ (last : AddsLast p) (k : OdrPack) (hw : List ℕ) (i : ℤ) (n : Node) where
    -- A payload towards the server, at a node between the client and the server that has routes
    -- to both, goes on unchanged by the next hop of the route to the server, and leaves the route
    -- to the client with the smaller of its hop count and the one in the payload's RREQ header,
    -- which no node on the way counts. The state is valid, the payload within the hop limit, the
    -- two ends have different slots, and list_add adds last.
    pub payload_uncounted :
        (e g : Entry)
        → IsValid n
        → k.type ≡ type_data
        → k.src_dest ≡ pos 1
        → InRange k
        → is_self_src p k.src_can_ip_str ≡ pos 0
        → is_self_dest p k.dest_can_ip_str ≡ pos 0
        → get_index_from_ip p k.dest_can_ip_str ≢ get_index_from_ip p k.src_can_ip_str
        → route (get_index_from_ip p k.src_can_ip_str) n.rtbl ≡ some e
        → route (get_index_from_ip p k.dest_can_ip_str) n.rtbl ≡ some g
        → (s : ℤ) × (m : Node) × (f : Entry) × (process_pack p k hw i n ≡ some (s, m))
          × (route (get_index_from_ip p k.src_can_ip_str) m.rtbl ≡ some f)
          × (f.hop ≡ less_of k.rreq.hop e.hop)
          × (m.sent ≡ push_all (unicast k g.next_hop_hwaddr g.if_no n.if_info_list) n.sent)
    unfolding process_data note_sender
    payload_uncounted e g v t d r a b apart h there =
        let j = get_index_from_ip p k.src_can_ip_str in
        let (f, found, q) = data-HasHop k hw i (view n.rtbl) e t d h in
        let same =
          ap (λ (x : Map). x.find j) (update-refines p last k hw i n.rtbl v.table.distinct) in
        let kept = relay_data-keeps p k (note_sender p k hw i n) in
        let relayed : process_data p k hw i n ≡ relay_data p k (note_sender p k hw i n) =
          rw (a, process_data) (rw (b, process_data)) in
        let out = data_relayed p k hw i n last v t r a b in
        let dest = get_index_from_ip p k.dest_can_ip_str in
        let on : route dest (noted p k hw i n) ≡ some g =
          request_other p last k hw i n.rtbl dest v.table.distinct t d apart ∙ there in
        let out_by : towards p k hw i n (noted p k hw i n) ≡ route dest (noted p k hw i n) = rw d in
        let way = out_by ∙ on in
        (
          (process_data p k hw i n).0,
          (process_data p k hw i n).1,
          f,
          process_pack-data p k hw i n t r,
          ap (route j) (ap (λ (x : ℤ × Node). x.1.rtbl) relayed ∙ kept.0) ∙ same ∙ found,
          q,
          Sent-state (process_pack p k hw i n) (process_data p k hw i n) _
                (process_pack-data p k hw i n t r) out
              ∙ ap (λ o. push_all (payload_frames k n.if_info_list o) n.sent) way,
        )
