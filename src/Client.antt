-- ===== src/Client.antt =====
-- client_aa19.c and server_aa19.c, with the message functions of common.h.
pub mod Names
pub mod Texts
pub mod Talk
pub mod Cases
pub mod Session
pub mod Bounds
pub mod Ends
use odr.Prelude.{
  ℕ, zero, suc, ◌+◌, Bool, true, false, ◌&&◌, ◌||◌, not, List, [], ◌∷◌, ◌++◌, take, set, leb, ltb,
  ◌==◌, if◌then◌else◌,
}
use odr.Prelude.Int.{ℤ, pos, negsuc, ltb_ℤ, leb_ℤ, ◌==ℤ◌}
use odr.Structs.{OdrReq, OdrReply, minus_one}
use odr.CString.{byte_at, strncpy, strncmp_eq, memcpy, c_string}

-- The loop that counts the bytes of the name, up to `left` of them.
unfoldable pub name_size : ℕ → List ℕ → ℕ
name_size zero vm_name = 0
name_size (suc left) [] = 0
name_size (suc left) (c ∷ cs) = if c == 0 then 0 else suc (name_size left cs)

-- The tests for vm1 to vm9 and for vm10.
unfoldable pub is_vm_digit : List ℕ → Bool
unfolding byte_at
is_vm_digit n =
    byte_at n 0 == b'v' && byte_at n 1 == b'm' && ltb b'0' (byte_at n 2) && leb (byte_at n 2) b'9'

unfoldable pub is_vm_ten : List ℕ → Bool
unfolding byte_at
is_vm_ten n =
    byte_at n 0 == b'v' && byte_at n 1 == b'm' && byte_at n 2 == b'1' && byte_at n 3 == b'0'

-- The tests of a name that was read: 0 or -1.
unfoldable pub check_name : ℤ → List ℕ → ℤ
check_name ret vm_name =
    let size = name_size 5 vm_name in
    if ltb_ℤ (pos 0) ret && ltb 0 size
    then (if size == 3
        then (if is_vm_digit vm_name then pos 0 else minus_one)
        else if size == 4
        then (if is_vm_ten vm_name then pos 0 else minus_one)
        else minus_one)
    else pos 0

-- getserveraddr, from the result of scanf and the buffer that it leaves: 0, -1, or -2 to quit.
unfoldable pub getserveraddr : ℤ → List ℕ → ℤ
getserveraddr ret vm_name =
    if strncmp_eq vm_name (b'q' ∷ []) 1 || strncmp_eq vm_name (b'Q' ∷ []) 1
    then negsuc 1
    else check_name ret vm_name

-- The request that msg_send hands to `sendto`, on a stack that holds `garbage`.
unfoldable pub msg_send_pack : List ℕ → List ℕ → ℤ → OdrReq
msg_send_pack garbage msg flag = record { msg = strncpy garbage msg 15; forced_discovery = flag }

-- msg_recv, from the result of recvfrom and the datagram in its buffer: it copies the texts to the
-- caller's arrays, and the port, whatever the result.
unfoldable pub msg_recv : ℤ → OdrReply → List ℕ → List ℕ → ℤ × OdrReply
msg_recv ret odr_rep msg ip =
    (ret, record { time = memcpy msg odr_rep.time; ip = memcpy ip odr_rep.ip; port = odr_rep.port })

-- One call of msg_send and the wait for the reply: the result of `sendto`, whether `select` found the
-- socket ready within three seconds, the result of msg_recv, and what it copied.
pub record Attempt : Type 0 where
  pub send : ℤ
  pub ready : Bool
  pub recv : ℤ
  pub reply : OdrReply

-- How a round of the client's loop ends: a reply to print, `goto err` after a failed send, or the
-- second timeout.
pub data End : Type 0 where
  replied : OdrReply → End
  send_failed : End
  timed_out : End

-- The reply as it is printed: `reply[30] = '\0'`.
unfoldable pub shown : OdrReply → OdrReply
shown r = record r { time = set r.time 30 0 }

-- A round from the first msg_send on, with the forced-discovery flags of its requests.
unfoldable pub talk : Attempt → Attempt → End × List ℤ
talk first second =
    if first.send ==ℤ minus_one
    then (send_failed, pos 0 ∷ [])
    else if first.ready && leb_ℤ (pos 0) first.recv
    then (replied (shown first.reply), pos 0 ∷ [])
    else if second.send ==ℤ minus_one
    then (send_failed, pos 0 ∷ pos 1 ∷ [])
    else if second.ready
    then (replied (shown second.reply), pos 0 ∷ pos 1 ∷ [])
    else (timed_out, pos 0 ∷ pos 1 ∷ [])

-- snprintf(time_str, 32, "%.24s\r\n", ctime(&ticks)), of which 32 bytes are sent.
unfoldable pub time_str : List ℕ → List ℕ → List ℕ
time_str old ctime = memcpy old ((take 24 (c_string ctime) ++ 13 ∷ 10 ∷ []) ++ 0 ∷ [])
