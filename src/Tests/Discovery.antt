-- ===== src/Tests/Discovery.antt =====
-- The ends of an exchange: a client's request for vm3, and vm3 with its server.
use odr.Prelude.{ℕ, ◌≡◌, refl, List, [], ◌∷◌, none, some}
use odr.Prelude.Int.{ℤ, pos}
use odr.Structs.{OdrReq}
use odr.CString.{bytes}
use odr.Platform.{Platform, AddsLast}
use odr.Table.{first_with}
use odr.Table.Routes.{route}
use odr.Client.{time_str}
use odr.Tests.{vm1, node}

-- The output of ctime.
abbrev pub monday : List ℕ
monday = b'M' ∷ b'o' ∷ b'n' ∷ 10 ∷ []

-- The node vm3 with its server, and a request for it at vm1.
abbrev pub vm3 : Platform
vm3 = record vm1 {
  gethostname = some (b'v' ∷ b'm' ∷ b'3' ∷ []);
  server_answer = λ s. some (time_str (bytes 32 []) monday);
}

pub vm3-AddsLast : AddsLast vm3
vm3-AddsLast = record { rtbl_last = λ e es. refl; if_last = λ i is. refl }

abbrev pub asking : OdrReq
asking = record { msg = bytes 32 (b'3' ∷ []); forced_discovery = pos 0 }

abbrev pub client : List ℕ
client = b'c' ∷ []

pub no_route : (j : ℤ) → route j node.rtbl ≡ none
unfolding first_with
no_route j = refl
