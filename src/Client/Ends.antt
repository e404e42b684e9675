-- ===== src/Client/Ends.antt =====
-- When a round of the client's loop goes on.
use odr.Prelude.{
  ℕ, ◌≡◌, ◌≢◌, ◌⊎◌, ◌↔◌, refl, true, false, List, none, arith, Bool-cases, Option-cases, inl, inr,
}
use odr.Prelude.Int.{ℤ, pos, negsuc, ◌==ℤ◌, ◌≤ℤ◌, ==ℤ_iff, ==ℤ_ne}
use odr.Structs.{minus_one}
use odr.Platform.{Platform}
use odr.Client.{getserveraddr, check_name, talk}
use odr.Client.Session.{
  Turn, Session, Course, going, quit, err, stopped, fault, resolve, conclude, exchange, turn,
}
use odr.Client.Cases.{talk-cases}

-- The first request was sent and answered, or both were sent and the second wait found the socket ready.
abbrev pub Served : Turn → Type 0
Served t =
    (t.first.send ≢ minus_one)
    × (((t.first.ready ≡ true) × (pos 0 ≤ℤ t.first.recv))
        ⊎ ((t.second.send ≢ minus_one) × (t.second.ready ≡ true)))

abbrev Goes : Course → Type 0
Goes (going s) = Unit
Goes (quit s) = ⊥
Goes (err s) = ⊥
Goes (stopped s) = ⊥
Goes (fault s) = ⊥

Goes-going : (c : Course) → Goes c ↔ ((u : Session) × (c ≡ going u))
Goes-going (going s) = (λ h. (s, refl), λ h. tt)
Goes-going (quit s) = (λ h. absurd h, λ h. cc)
Goes-going (err s) = (λ h. absurd h, λ h. cc)
Goes-going (stopped s) = (λ h. absurd h, λ h. cc)
Goes-going (fault s) = (λ h. absurd h, λ h. cc)

-- Socket and Bind return, and mkstemp makes a path.
abbrev pub Opened : Turn → Type 0
Opened t = (t.socket_returns ≡ true) × (t.mkstemp ≢ minus_one) × (t.bind_returns ≡ true)

module _ (t : Turn) where
  served : (s : Session) → Goes (conclude (talk t.first t.second).0 s) → Served t
  unfolding conclude
  served s =
      talk-cases (λ x. Goes (conclude x.0 s) → Served t) t.first t.second (λ a h. absurd h)
        (λ a b c h. (a, inl (b, c))) (λ a b h. absurd h) (λ a b c h. (a, inr (b, c)))
        (λ a b h. absurd h)

  goes : (s : Session) → Served t → Goes (conclude (talk t.first t.second).0 s)
  unfolding conclude
  goes s =
      talk-cases (λ x. Served t → Goes (conclude x.0 s)) t.first t.second (λ a h. absurd (h.0 a))
        (λ a b c h. tt)
        (λ a b h. elim h.1 [ inl q ↦ absurd (ground (arith, q)) | inr q ↦ absurd (q.0 b) ])
        (λ a b c h. tt)
        (λ a b h. elim h.1 [
          | inl q ↦ absurd (ground (arith, q))
          | inr q ↦ absurd (ground (arith, q))
        ])

  exchange-Goes : (s : Session) → Goes (exchange t s) ↔ (Opened t × Served t)
  unfolding exchange
  exchange-Goes s = elim (Bool-cases t.socket_returns) [
    | inr no_socket ↦ rw (no_socket, exchange) (λ h. absurd h, λ h. absurd (ground arith))
    | inl socket ↦
        rw (socket, exchange)
          (elim (Bool-cases (t.mkstemp ==ℤ minus_one)) [
            | inl fail ↦
                rw (fail, exchange)
                  (λ h. absurd h, λ h. absurd (h.0.1 ((==ℤ_iff t.mkstemp minus_one).0 fail)))
            | inr path ↦
                rw (path, exchange)
                  (elim (Bool-cases t.bind_returns) [
                    | inr unbound ↦
                        rw (unbound, exchange) (λ h. absurd h, λ h. absurd (ground arith))
                    | inl bound ↦
                        rw (bound, exchange)
                          (
                            λ h. ((refl, ==ℤ_ne t.mkstemp minus_one path, refl), served _ h),
                            λ h. goes _ h.1,
                          )
                  ])
          ])
  ]

getserveraddr-results :
    (ret : ℤ) (name : List ℕ)
    → (getserveraddr ret name ==ℤ minus_one) ≡ false
    → (getserveraddr ret name ==ℤ negsuc 1) ≡ false
    → getserveraddr ret name ≡ pos 0
unfolding getserveraddr check_name
getserveraddr-results ret name a b = ground arith

turn-Goes :
    (p : Platform) (t : Turn) (s : Session)
    → Goes (turn p t s)
      ↔ ((getserveraddr t.scanned t.vm_name ≡ pos 0) × (t.host ≢ none) × Opened t × Served t)
unfolding turn
turn-Goes p t s = elim (Bool-cases (getserveraddr t.scanned t.vm_name ==ℤ minus_one)) [
  | inl bad ↦ rw (bad, turn) (λ h. absurd h, λ h. absurd (ground arith))
  | inr named ↦
      rw (named, turn)
        (elim (Bool-cases (getserveraddr t.scanned t.vm_name ==ℤ negsuc 1)) [
          | inl leave ↦ rw (leave, turn) (λ h. absurd h, λ h. absurd (ground arith))
          | inr stay ↦
              rw (stay, turn)
                (elim (Option-cases t.host) [
                  | inl unknown ↦ rw (unknown, turn) (λ h. absurd h, λ h. absurd (h.1 refl))
                  | inr (addr, known) ↦
                      let u = record s { server_addr_str = resolve p addr s.server_addr_str } in
                      rw (known, turn)
                        (
                          λ h.
                              let (open', all) = (exchange-Goes t u).0 h in
                              (
                                getserveraddr-results t.scanned t.vm_name named stay,
                                λ e. absurd (ground (arith, e)),
                                open',
                                all,
                              ),
                          λ (ret, there, open', all). (exchange-Goes t u).1 (open', all),
                        )
                ])
        ])
]

-- A round of the client goes on to the next one exactly if getserveraddr returns 0, gethostbyname
-- finds the name, Socket and Bind return, mkstemp makes a path, the first request is sent, and
-- either its reply is read or the second is sent too and its wait finds the socket ready; else
-- the client ends.
pub turn_goes_on :
    (p : Platform) (t : Turn) (s : Session)
    → ((u : Session) × (turn p t s ≡ going u))
      ↔ ((getserveraddr t.scanned t.vm_name ≡ pos 0) × (t.host ≢ none) × Opened t × Served t)
turn_goes_on p t s =
    let a = Goes-going (turn p t s) in
    let b = turn-Goes p t s in (λ h. b.0 (a.1 h), λ h. a.0 (b.1 h))
