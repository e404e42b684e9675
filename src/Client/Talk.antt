-- ===== src/Client/Talk.antt =====
-- A round of the client's loop.
use odr.Prelude.{◌≡◌, ◌≢◌, ◌⊎◌, ◌↔◌, true, false, ◌&&◌, [], ◌∷◌, arith, Bool-cases, inl, inr}
use odr.Prelude.Int.{pos, ◌<ℤ◌, leb_ℤ, eq_of_parts}
use odr.Structs.{OdrReply, minus_one}
use odr.Client.{Attempt, replied, shown, talk}

-- The first request was sent, and no reply to it was read.
pub record Unanswered (a : Attempt) : Type 0 where
  pub was_sent : a.send ≢ minus_one
  pub unread : (a.ready ≡ false) ⊎ (a.recv <ℤ pos 0)

-- A round of the client makes a second request, with forced discovery, if and only if the first
-- was sent and no reply to it was read; the first never forces discovery.
talk_forces : (a b : Attempt) → ((talk a b).1 ≡ pos 0 ∷ pos 1 ∷ []) ↔ Unanswered a
unfolding talk
talk_forces a b = (
  λ h. record {
    was_sent = λ e. ground arith;
    unread = elim (Bool-cases a.ready) [ inl ready ↦ inr (ground arith) | inr late ↦ inl late ];
  },
  λ u. ground (arith, eq_of_parts a.send minus_one),
)

-- A round ends with a reply only if one was read, or the second wait found the socket ready.
talk_replied :
    (a b : Attempt) (r : OdrReply)
    → (talk a b).0 ≡ replied r
    → ((a.ready ≡ true) × (r ≡ shown a.reply)) ⊎ ((b.ready ≡ true) × (r ≡ shown b.reply))
unfolding talk
talk_replied a b r h = elim (Bool-cases (a.ready && leb_ℤ (pos 0) a.recv)) [
  | inl first ↦ inl (ground arith, ground arith)
  | inr second ↦ inr (ground arith, ground arith)
]
