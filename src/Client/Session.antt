-- ===== src/Client/Session.antt =====
-- main of client_aa19.c: one round of its loop after the other, until it quits or fails.
use odr.Prelude.{ℕ, Bool, not, List, [], ◌∷◌, Option, none, some, if◌then◌else◌}
use odr.Prelude.Int.{ℤ, negsuc, ◌==ℤ◌}
use odr.Structs.{OdrReq, OdrReply, minus_one}
use odr.Platform.{Platform}
use odr.Client.{getserveraddr, msg_send_pack, Attempt, End, replied, send_failed, timed_out, talk}

-- What a round meets: the result of scanf and the name that it leaves, h_addr_list[0] of gethostbyname or
-- NULL, whether Socket and Bind of unp.h return (if not, they end the program), the result of mkstemp, the
-- bytes under the message of a request on the stack, and the two attempts.
pub record Turn : Type 0 where
  pub scanned : ℤ
  pub vm_name : List ℕ
  pub host : Option (List ℕ)
  pub socket_returns : Bool
  pub mkstemp : ℤ
  pub bind_returns : Bool
  pub garbage : List ℕ
  pub first : Attempt
  pub second : Attempt

-- The address that stays from round to round, the requests that were handed to `sendto` and the replies
-- that were printed, newest first.
pub record Session : Type 0 where
  pub server_addr_str : List ℕ
  pub requests : List OdrReq
  pub replies : List OdrReply

-- The loop goes on, `exit(0)`, `goto err`, the end inside Socket or Bind, or a NULL pointer is read.
pub data Course : Type 0 where
  going : Session → Course
  quit : Session → Course
  err : Session → Course
  stopped : Session → Course
  fault : Session → Course

-- inet_ntop, which leaves the array alone when it fails.
unfoldable pub resolve : Platform → List ℕ → List ℕ → List ℕ
resolve p addr old = elim (p.inet_ntop addr 16) [ none ↦ old | some t ↦ t ]

-- The requests with the given flags, in their order.
unfoldable pub send_all : List ℕ → List ℕ → List ℤ → List OdrReq → List OdrReq
send_all garbage addr [] sent = sent
send_all garbage addr (flag ∷ flags) sent =
    send_all garbage addr flags (msg_send_pack garbage addr flag ∷ sent)

unfoldable pub conclude : End → Session → Course
conclude (replied r) s = going (record s { replies = r ∷ s.replies })
conclude send_failed s = err s
conclude timed_out s = err s

-- From the socket on, with the address in place.
unfoldable pub exchange : Turn → Session → Course
exchange t s =
    if not t.socket_returns
    then stopped s
    else if t.mkstemp ==ℤ minus_one
    then err s
    else if not t.bind_returns
    then stopped s
    else conclude (talk t.first t.second).0 (record s {
      requests = send_all t.garbage s.server_addr_str (talk t.first t.second).1 s.requests;
    })

unfoldable pub turn : Platform → Turn → Session → Course
turn p t s =
    let ret = getserveraddr t.scanned t.vm_name in
    if ret ==ℤ minus_one then err s else if ret ==ℤ negsuc 1 then quit s else elim t.host [
      | none ↦ fault s
      | some addr ↦ exchange t (record s { server_addr_str = resolve p addr s.server_addr_str })
    ]

unfoldable pub session : Platform → List Turn → Session → Course
session p [] s = going s
session p (t ∷ ts) s = elim (turn p t s) [
  | going u ↦ session p ts u
  | quit u ↦ quit u
  | err u ↦ err u
  | stopped u ↦ stopped u
  | fault u ↦ fault u
]
