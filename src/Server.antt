-- ===== src/Server.antt =====
-- server_aa19.c, with msg_recv_srv and msg_send_srv of common.h.
use odr.Prelude.{ℕ, ◌≡◌, ◌∙◌, refl, ap, List, [], ◌∷◌, take, length, arith, if◌then◌else◌, All}
use odr.Prelude.Int.{ℤ, pos, ltb_ℤ, ◌≤ℤ◌}
use odr.CString.{c_string}
use odr.Client.{time_str}
use odr.Client.Texts.{take_all, time_text, text-time_str, length-time_str}

-- A call of recvfrom: its result, the two bytes of the request and the address that it came from; and
-- what `ctime` says then.
pub record Arrival : Type 0 where
  pub ret : ℤ
  pub bytes : List ℕ
  pub from : List ℕ
  pub ctime : List ℕ

-- The address in `server_un`, the array `time_str`, and the answers with their addresses, newest first.
pub record Server : Type 0 where
  pub server_un : List ℕ
  pub time : List ℕ
  pub sent : List (List ℕ × List ℕ)

-- recvfrom sets `server_un`, unless it fails. The request goes into a new array, and the caller's stays
-- as it was.
unfoldable pub msg_recv_srv : Arrival → List ℕ → Server → ℤ × List ℕ × Server
msg_recv_srv a msg s =
    (a.ret, msg, record s { server_un = if ltb_ℤ a.ret (pos 0) then s.server_un else a.from })

unfoldable pub msg_send_srv : List ℕ → Server → Server
msg_send_srv msg s = record s { sent = (s.server_un, take 32 msg) ∷ s.sent }

-- One round of the loop; the result of the receive is not tested.
unfoldable pub answer : List ℕ → Arrival → Server → Server
answer odrreq a s =
    let (ret, msg, u) = msg_recv_srv a odrreq s in
    msg_send_srv (time_str u.time a.ctime) (record u { time = time_str u.time a.ctime })

unfoldable pub serve : List ℕ → List Arrival → Server → Server
serve odrreq [] s = s
serve odrreq (a ∷ arrivals) s = serve odrreq arrivals (answer odrreq a s)

-- The answers that are asked for, newest first: each to the address that the request came from, with the
-- text of the time.
abbrev pub wanted : List Arrival → List (List ℕ × List ℕ) → List (List ℕ × List ℕ)
wanted [] l = l
wanted (a ∷ arrivals) l = wanted arrivals ((a.from, time_text a.ctime) ∷ l)

-- The answers as they are read.
abbrev pub read_back : List (List ℕ × List ℕ) → List (List ℕ × List ℕ)
read_back [] = []
read_back ((to, text) ∷ l) = (to, c_string text) ∷ read_back l

-- The server answers each request by one text, to the address that the request came from and in
-- the order of the requests: the first 24 bytes of ctime and a line end, if no receive fails and
-- `time_str` has 32 bytes.
pub serve-wanted :
    (odrreq : List ℕ) (arrivals : List Arrival) (s : Server)
    → All (λ a. pos 0 ≤ℤ a.ret) arrivals
    → length s.time ≡ 32
    → read_back (serve odrreq arrivals s).sent ≡ wanted arrivals (read_back s.sent)
unfolding serve answer msg_recv_srv msg_send_srv
serve-wanted odrreq [] s ok h = refl
serve-wanted odrreq (a ∷ arrivals) s ok h =
    let from : (if ltb_ℤ a.ret (pos 0) then s.server_un else a.from) ≡ a.from =
      ground (arith, ok.0) in
    let size : length (time_str s.time a.ctime) ≡ 32 = length-time_str s.time a.ctime h in
    let text : c_string (take 32 (time_str s.time a.ctime)) ≡ time_text a.ctime =
      ap c_string (take_all 32 (time_str s.time a.ctime) size) ∙ text-time_str s.time a.ctime h in
    serve-wanted odrreq arrivals (answer odrreq a s) ok.1 size
    ∙ ap (wanted arrivals) (rw (from, text))
