-- ===== src/Client/Bounds.antt =====
-- How many requests the client sends for its replies.
use odr.Prelude.{ℕ, ◌+◌, ◌*◌, ◌≤◌, List, [], ◌∷◌, length, arith, Bool-cases, Option-cases, inl, inr}
use odr.Prelude.Int.{negsuc, ◌==ℤ◌}
use odr.Structs.{minus_one}
use odr.Platform.{Platform}
use odr.Client.{getserveraddr}
use odr.Client.Session.{
  Turn, Session, Course, going, quit, err, stopped, fault, resolve, send_all, conclude, exchange,
  turn, session,
}
use odr.Client.Cases.{talk-cases}

-- At least one request for each reply, and at most two; two more if the client fails.
abbrev pub Balanced : ℕ → Session → Type 0
Balanced extra s =
    (length s.replies ≤ length s.requests) × (length s.requests ≤ 2 * length s.replies + extra)

abbrev pub Accounts : Course → Type 0
Accounts (going s) = Balanced 0 s
Accounts (quit s) = Balanced 0 s
Accounts (err s) = Balanced 2 s
Accounts (stopped s) = Balanced 0 s
Accounts (fault s) = Balanced 0 s

exchange-Accounts : (t : Turn) (s : Session) → Balanced 0 s → Accounts (exchange t s)
unfolding exchange send_all conclude
exchange-Accounts t s b = elim (Bool-cases t.socket_returns) [
  | inr no_socket ↦ rw (no_socket, exchange) b
  | inl socket ↦
      rw (socket, exchange)
        (elim (Bool-cases (t.mkstemp ==ℤ minus_one)) [
          | inl fail ↦ rw (fail, exchange) (omega arith, omega arith)
          | inr path ↦
              rw (path, exchange)
                (elim (Bool-cases t.bind_returns) [
                  | inr unbound ↦ rw (unbound, exchange) b
                  | inl bound ↦
                      rw (bound, exchange)
                        (talk-cases
                          (λ x. Accounts (
                            conclude x.0 (record s {
                              requests = send_all t.garbage s.server_addr_str x.1 s.requests;
                            })))
                          t.first t.second (λ h. (omega arith, omega arith))
                          (λ h h' h''. (omega arith, omega arith))
                          (λ h h'. (omega arith, omega arith))
                          (λ h h' h''. (omega arith, omega arith))
                          (λ h h'. (omega arith, omega arith)))
                ])
        ])
]

turn-Accounts : (p : Platform) (t : Turn) (s : Session) → Balanced 0 s → Accounts (turn p t s)
unfolding turn
turn-Accounts p t s b = elim (Bool-cases (getserveraddr t.scanned t.vm_name ==ℤ minus_one)) [
  | inl bad ↦ rw (bad, turn) (omega arith, omega arith)
  | inr named ↦
      rw (named, turn)
        (elim (Bool-cases (getserveraddr t.scanned t.vm_name ==ℤ negsuc 1)) [
          | inl leave ↦ rw (leave, turn) b
          | inr stay ↦
              rw (stay, turn)
                (elim (Option-cases t.host) [
                  | inl unknown ↦ rw (unknown, turn) b
                  | inr (addr, known) ↦
                      rw (known, turn)
                        (exchange-Accounts t
                          (record s { server_addr_str = resolve p addr s.server_addr_str }) b)
                ])
        ])
]

-- Over any rounds of the client, the replies that it printed are no more than the requests that
-- it sent, and these are at most twice as many as the replies, with two more if it ends by a
-- failure, if this held at first.
pub session-Accounts :
    (p : Platform) (ts : List Turn) (s : Session) → Balanced 0 s → Accounts (session p ts s)
unfolding session
session-Accounts p [] s b = b
session-Accounts p (t ∷ ts) s b =
    next (λ u w. session-Accounts p ts u w) (turn p t s) (turn-Accounts p t s b)
  where
    next :
        ((u : Session) → Balanced 0 u → Accounts (session p ts u))
        → (c : Course) → Accounts c
        → Accounts (elim c [
          | going u ↦ session p ts u
          | quit u ↦ quit u
          | err u ↦ err u
          | stopped u ↦ stopped u
          | fault u ↦ fault u
        ])
    next rest (going u) w = rest u w
    next rest (quit u) w = w
    next rest (err u) w = w
    next rest (stopped u) w = w
    next rest (fault u) w = w
