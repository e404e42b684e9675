-- ===== src/Early/Client.antt =====
-- client.c: a client that sends the address of one server and ends.
use odr.Prelude.{ℕ, List, [], ◌∷◌, if◌then◌else◌}
use odr.Prelude.Int.{ℤ, ◌==ℤ◌}
use odr.Structs.{minus_one}
use odr.CString.{c_string}
use odr.Client.{check_name}

-- getserveraddr, whose tests are those of client_aa19.c but for the letter q; from the result of scanf and the buffer that it leaves: 0 or -1.
unfoldable pub getserveraddr : ℤ → List ℕ → ℤ
getserveraddr ret vm_name = check_name ret vm_name

-- How main ends.
pub data End : Type 0 where
  done : End
  err : End

-- What main calls: scanf with the buffer that it leaves, the address of the name, mkstemp and sendto.
pub record Calls : Type 0 where
  pub scanf : ℤ
  pub vm_name : List ℕ
  pub server_addr_str : List ℕ
  pub mkstemp : ℤ
  pub sendto : List ℕ → ℤ

-- main: how it ends, and the messages that it handed to `sendto`.
unfoldable pub main : Calls → End × List (List ℕ)
main c =
    if getserveraddr c.scanf c.vm_name ==ℤ minus_one
    then (err, [])
    else if c.mkstemp ==ℤ minus_one
    then (err, [])
    else (let msg = c_string c.server_addr_str in
        (if c.sendto msg ==ℤ minus_one then err else done, msg ∷ []))
