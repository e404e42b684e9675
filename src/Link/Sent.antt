-- ===== src/Link/Sent.antt =====
-- What the three functions add to the messages that were sent: frames with the given packet.
use odr.Prelude.{ℕ, All, ◌≡◌, ◌⊎◌, List, [], ◌∷◌, Bool-cases, inl, inr}
use odr.Prelude.Int.{ℤ, pos, ◌==ℤ◌}
use odr.Structs.{OdrPack, IfInfo, Entry, Out, to_link, to_client, to_server}
use odr.Platform.{Platform}
use odr.Link.{
  broadcast_frame, unicast_frame, broadcast_one, broadcast_each, broadcast_ll_msg, send_one,
  send_each, send_ll_msg, payload_one, payload_each, send_payload,
}

-- A frame with such a packet, a message to a client of such an address, or one to the server.
abbrev pub Carries : (OdrPack → Type 0) → (List ℕ → Type 0) → Out → Type 0
Carries Q C (to_link f) = Q f.packet
Carries Q C (to_client addr r) = C addr
Carries Q C (to_server m) = Unit

abbrev pub Anyone : List ℕ → Type 0
Anyone addr = Unit

-- What all messages are stays so when one more is.
pub All-Carries :
    (Q : OdrPack → Type 0) (C : List ℕ → Type 0) (o : Out) (s : List Out)
    → Carries Q C o
    → All (Carries Q C) s
    → All (Carries Q C) (o ∷ s)
All-Carries Q C o s q h = (q, h)

-- The message was handed to `sendto`.
abbrev pub In : Out → List Out → Type 0
In o [] = ⊥
In o (x ∷ xs) = (o ≡ x) ⊎ In o xs

-- What holds of the messages so far, and stays true when such a message is added, holds after a send.
module _ (Q : OdrPack → Type 0) (C : List ℕ → Type 0) (S : List Out → Type 0)
    (closed : (o : Out) (s : List Out) → Carries Q C o → S s → S (o ∷ s)) (p : Platform)
    (k : OdrPack) (q : Q k) where
  broadcast_each-sent :
      (i : ℤ) (fs : List IfInfo) (r : ℤ) (s : List Out) → S s → S (broadcast_each p k i fs (r, s)).1
  unfolding broadcast_each broadcast_one broadcast_frame
  broadcast_each-sent i [] r s h = h
  broadcast_each-sent i (f ∷ fs) r s h = elim (Bool-cases (i ==ℤ f.sll_ifindex)) [
    | inl same ↦ rw (same, broadcast_each) (broadcast_each-sent i fs r s h)
    | inr other ↦
        rw (other, broadcast_each)
          (broadcast_each-sent i fs _ _ (closed (to_link (broadcast_frame k f)) s q h))
  ]

  pub broadcast-sent :
      (i : ℤ) (fs : List IfInfo) (s : List Out) → S s → S (broadcast_ll_msg p fs k i s).1
  unfolding broadcast_ll_msg
  broadcast-sent i fs s h = broadcast_each-sent i fs (pos 0) s h

  send_each-sent :
      (to : List ℕ) (i : ℤ) (fs : List IfInfo) (r : ℤ) (s : List Out)
      → S s
      → S (send_each p k to i fs (r, s)).1
  unfolding send_each send_one unicast_frame
  send_each-sent to i [] r s h = h
  send_each-sent to i (f ∷ fs) r s h = elim (Bool-cases (i ==ℤ f.sll_ifindex)) [
    | inr other ↦ rw (other, send_each) (send_each-sent to i fs r s h)
    | inl same ↦
        rw (same, send_each)
          (send_each-sent to i fs _ _ (closed (to_link (unicast_frame k to i f)) s q h))
  ]

  pub send-sent :
      (to : List ℕ) (i : ℤ) (fs : List IfInfo) (s : List Out)
      → S s
      → S (send_ll_msg p fs k to i s).1
  unfolding send_ll_msg
  send-sent to i fs s h = send_each-sent to i fs (pos 0) s h

  payload_each-sent :
      (fs : List IfInfo) (key : ℤ) (es : List Entry) (r : ℤ) (s : List Out)
      → S s
      → S (payload_each p fs k key es (r, s)).1
  unfolding payload_each payload_one
  payload_each-sent fs key [] r s h = h
  payload_each-sent fs key (e ∷ es) r s h = elim (Bool-cases (e.key ==ℤ key)) [
    | inr other ↦ rw (other, payload_each) (payload_each-sent fs key es r s h)
    | inl same ↦
        rw (same, payload_each)
          (payload_each-sent fs key es _ _ (send-sent e.next_hop_hwaddr e.if_no fs s h))
  ]

  pub payload-sent :
      (fs : List IfInfo) (es : List Entry) (key : ℤ) (s : List Out)
      → S s
      → S (send_payload p fs es k key s).1
  unfolding send_payload
  payload-sent fs es key s h = payload_each-sent fs key es (pos 0) s h
