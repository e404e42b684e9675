-- ===== src/Tests/Clients.antt =====
-- Examples for the client, the server and the interfaces.
use odr.Prelude.{
  ℕ, ◌*◌, ◌≡◌, ◌≢◌, ◌↔◌, refl, true, false, List, [], ◌∷◌, none, some, arith, leb, if◌then◌else◌,
}
use odr.Prelude.Int.{pos}
use odr.Structs.{OdrReply}
use odr.CString.{bytes, c_string}
use odr.Hwaddrs.{Ifconf, filled, sized, sizing}
use odr.Hwaddrs.Sizing.{Kernel, sizing_complete}
use odr.Client.{getserveraddr, Attempt}
use odr.Client.Names.{NodeName, getserveraddr-NodeName}
use odr.Server.{Arrival, Server, serve, wanted, read_back, serve-wanted}
use odr.Client.Session.{Turn, Session, going, turn, session}
use odr.Client.Bounds.{Accounts, session-Accounts}
use odr.Client.Ends.{Opened, Served, turn_goes_on}
use odr.Tests.{vm1}

-- The output of ctime.
abbrev monday : List ℕ
monday = b'M' ∷ b'o' ∷ b'n' ∷ 10 ∷ []

abbrev reply : OdrReply
reply = record { time = bytes 32 monday; ip = bytes 15 (b'3' ∷ []); port = pos 57575 }

-- Three records of 40 bytes, in a kernel that fills in as many as fit.
abbrev three_records : ℕ → Ifconf
three_records len =
    filled (if leb 120 len then 120 else if leb 80 len then 80 else if leb 40 len then 40 else 0)

three_records-Kernel : Kernel three_records 40 120
three_records-Kernel = record {
  size = omega arith;
  fits = λ len h. ground arith;
  short = λ len h. (
    if leb 120 len then 120 else if leb 80 len then 80 else if leb 40 len then 40 else 0,
    refl,
    ground arith,
    ground arith,
  );
}

sizing_complete_example : sizing three_records 40 122 0 (100 * 40) ≡ sized 120
sizing_complete_example =
    sizing_complete three_records 40 120 three_records-Kernel 122 (omega arith)

-- The name vm7 as scanf leaves it in the array of 5 bytes.
abbrev vm7 : List ℕ
vm7 = b'v' ∷ b'm' ∷ b'7' ∷ 0 ∷ 0 ∷ []

vm7-unequal : c_string vm7 ≢ []
unfolding c_string
vm7-unequal = λ e. ground (arith, e)

getserveraddr-NodeName_example : (getserveraddr (pos 1) vm7 ≡ pos 0) ↔ NodeName (c_string vm7)
getserveraddr-NodeName_example = getserveraddr-NodeName (pos 1) vm7 (omega arith) vm7-unequal

-- A first request without a reply in time, and a second with one.
abbrev late : Attempt
late = record { send = pos 36; ready = false; recv = pos 0; reply = reply }

abbrev in_time : Attempt
in_time = record { send = pos 36; ready = true; recv = pos 51; reply = reply }

-- A round for vm7.
abbrev asks_vm7 : Turn
asks_vm7 = record {
  scanned = pos 1;
  vm_name = vm7;
  host = some (10 ∷ 255 ∷ 14 ∷ 7 ∷ []);
  socket_returns = true;
  mkstemp = pos 3;
  bind_returns = true;
  garbage = bytes 32 [];
  first = late;
  second = in_time;
}

abbrev before : Session
before = record { server_addr_str = bytes 16 []; requests = []; replies = [] }

session-Accounts_example : Accounts (session vm1 (asks_vm7 ∷ asks_vm7 ∷ []) before)
session-Accounts_example =
    session-Accounts vm1 (asks_vm7 ∷ asks_vm7 ∷ []) before (omega arith, omega arith)

turn_goes_on_example : ((u : Session) × (turn vm1 asks_vm7 before ≡ going u)) ↔ (
    (getserveraddr (pos 1) vm7 ≡ pos 0)
    × (asks_vm7.host ≢ none)
    × Opened asks_vm7
    × Served asks_vm7)
turn_goes_on_example = turn_goes_on vm1 asks_vm7 before

-- Two requests of the ODR process for the time.
abbrev arrival : Arrival
arrival = record {
  ret = pos 2;
  bytes = b't' ∷ 0 ∷ [];
  from = b'o' ∷ b'd' ∷ b'r' ∷ [];
  ctime = monday;
}

abbrev server : Server
server = record { server_un = []; time = bytes 32 []; sent = [] }

serve-wanted_example :
    read_back (serve (0 ∷ 0 ∷ []) (arrival ∷ arrival ∷ []) server).sent
    ≡ wanted (arrival ∷ arrival ∷ []) []
unfolding bytes
serve-wanted_example =
    serve-wanted (0 ∷ 0 ∷ []) (arrival ∷ arrival ∷ []) server (omega arith, (omega arith, tt)) refl
