-- ===== src/Link.antt =====
-- Sending frames: broadcast_ll_msg, send_ll_msg and send_payload of odr_aa19.c.
pub mod Frames
pub mod Sent
use odr.Prelude.{ℕ, List, [], ◌∷◌, if◌then◌else◌}
use odr.Prelude.Int.{ℤ, pos, leb_ℤ, ◌==ℤ◌}
use odr.Structs.{OdrPack, IfInfo, Entry, Frame, Out, to_link, eth_p_aa19, minus_one}
use odr.Platform.{Platform}

abbrev pub broadcast_addr : List ℕ
broadcast_addr = 0xff ∷ 0xff ∷ 0xff ∷ 0xff ∷ 0xff ∷ 0xff ∷ []

-- The frame that `broadcast_ll_msg` sends through an interface.
unfoldable pub broadcast_frame : OdrPack → IfInfo → Frame
broadcast_frame k f = record {
  h_dest = broadcast_addr;
  h_source = f.sll_addr;
  h_proto = eth_p_aa19;
  sll_ifindex = f.sll_ifindex;
  packet = k;
}

-- The frame that `send_ll_msg` sends to a hardware address.
unfoldable pub unicast_frame : OdrPack → List ℕ → ℤ → IfInfo → Frame
unicast_frame k to i f = record {
  h_dest = to;
  h_source = f.sll_addr;
  h_proto = eth_p_aa19;
  sll_ifindex = i;
  packet = k;
}

-- `ret >= 0 ? 1 : -1`, by which the three functions end.
unfoldable pub status : ℤ → ℤ
status ret = if leb_ℤ (pos 0) ret then pos 1 else minus_one

module _ (p : Platform) where
  -- One round of the loop: the result and the frames sent so far.
  unfoldable pub broadcast_one : OdrPack → ℤ → IfInfo → ℤ × List Out → ℤ × List Out
  broadcast_one k recv f (ret, s) =
      if recv ==ℤ f.sll_ifindex
      then (ret, s)
      else (p.sendto s (to_link (broadcast_frame k f)), to_link (broadcast_frame k f) ∷ s)

  unfoldable pub broadcast_each : OdrPack → ℤ → List IfInfo → ℤ × List Out → ℤ × List Out
  broadcast_each k recv [] r = r
  broadcast_each k recv (f ∷ fs) r = broadcast_each k recv fs (broadcast_one k recv f r)

  unfoldable pub broadcast_ll_msg : List IfInfo → OdrPack → ℤ → List Out → ℤ × List Out
  broadcast_ll_msg fs k recv s =
      let (ret, s') = broadcast_each k recv fs (pos 0, s) in (status ret, s')

  unfoldable pub send_one : OdrPack → List ℕ → ℤ → IfInfo → ℤ × List Out → ℤ × List Out
  send_one k to i f (ret, s) =
      if i ==ℤ f.sll_ifindex
      then (p.sendto s (to_link (unicast_frame k to i f)), to_link (unicast_frame k to i f) ∷ s)
      else (ret, s)

  unfoldable pub send_each : OdrPack → List ℕ → ℤ → List IfInfo → ℤ × List Out → ℤ × List Out
  send_each k to i [] r = r
  send_each k to i (f ∷ fs) r = send_each k to i fs (send_one k to i f r)

  unfoldable pub send_ll_msg : List IfInfo → OdrPack → List ℕ → ℤ → List Out → ℤ × List Out
  send_ll_msg fs k to i s = let (ret, s') = send_each k to i fs (pos 0, s) in (status ret, s')

  -- One entry of the walk over the routing table.
  unfoldable pub payload_one : List IfInfo → OdrPack → ℤ → Entry → ℤ × List Out → ℤ × List Out
  payload_one fs k key e (ret, s) =
      if e.key ==ℤ key then send_ll_msg fs k e.next_hop_hwaddr e.if_no s else (ret, s)

  unfoldable pub payload_each : List IfInfo → OdrPack → ℤ → List Entry → ℤ × List Out → ℤ × List Out
  payload_each fs k key [] r = r
  payload_each fs k key (e ∷ es) r = payload_each fs k key es (payload_one fs k key e r)

  unfoldable pub send_payload : List IfInfo → List Entry → OdrPack → ℤ → List Out → ℤ × List Out
  send_payload fs es k key s =
      let (ret, s') = payload_each fs k key es (pos 0, s) in (status ret, s')
