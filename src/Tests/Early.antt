-- ===== src/Tests/Early.antt =====
-- An example for the process of odr.c.
use odr.Prelude.{ℕ, ◌≡◌, ◌++◌, refl, List, [], ◌∷◌, Option, none, some, if◌then◌else◌}
use odr.Prelude.Int.{ℤ, pos}
use odr.CString.{bytes}
use odr.Hwaddrs.{Ifreq, get_hw_addrs, get_hw_addrs_or_quit}
use odr.Early.Odr.{System, Process, Round, running, err, recv_error, received, start, loop}
use odr.Early.Broadcasts.{requests, fails, again, frames_of, broadcasts}
use odr.Tests.{neighbour}

abbrev vm : System
vm = record {
  garbage = bytes 64 [];
  name_garbage = bytes 16 [];
  sendto = λ s f. pos 142;
  setsockopt = λ name. pos 0;
  list_add = λ i is. is ++ i ∷ [];
}

abbrev eth : ℕ → ℤ → Ifreq
eth c i = record {
  ifr_name = b'e' ∷ b't' ∷ b'h' ∷ c ∷ bytes 12 [];
  ifr_addr = c ∷ [];
  hwaddr = neighbour;
  ifindex = i;
}

abbrev items : List Ifreq
items = eth b'0' (pos 2) ∷ eth b'1' (pos 3) ∷ eth b'2' (pos 4) ∷ []

abbrev message : Round
message = record {
  frame = some (received (b'h' ∷ b'i' ∷ []));
  datagram = some (received (b'1' ∷ []));
}

-- Two messages, and a third that comes after an error.
abbrev rounds : List Round
rounds =
    message
    ∷ record { frame = some recv_error; datagram = none }
    ∷ message
    ∷ record { frame = none; datagram = some recv_error }
    ∷ message
    ∷ []

abbrev started : Option Process
started = start vm items (bytes 64 [])

abbrev first : Process
first = elim started [
  | some n ↦ n
  | none ↦ record { if_info_list = []; buffer = []; printed = []; sent = [] }
]

first-started : started ≡ some first
unfolding start get_hw_addrs_or_quit
first-started = refl

broadcasts_example :
    (m : Process) × (loop vm rounds first ≡ (if fails rounds then err m else running m))
    × (m.sent ≡ again (requests rounds) (frames_of vm (get_hw_addrs items)) [])
broadcasts_example = broadcasts vm (λ i is. refl) items (bytes 64 []) first rounds first-started
