-- ===== src/Platform.antt =====
-- What the program calls and does not implement: the C library, the kernel's sockets, the name
-- service, the clock and the linked lists of list.h.
use odr.Prelude.{ℕ, ◌≡◌, List, [], ◌∷◌, ◌++◌, Option}
use odr.Prelude.Int.{ℤ}
use odr.Structs.{Entry, IfInfo, Out}

-- A list of list.h is the sequence of its entries in the order of `list_for_each_entry_reverse`.
pub record Platform : Type 0 where
  -- The result of the n-th call of time(NULL).
  pub clock : ℕ → ℤ
  -- The buffer `host` of `get_index_from_ip` after inet_pton and getnameinfo on a text, by index.
  pub getnameinfo : List ℕ → ℕ → ℕ
  -- gethostname into a buffer of 5 bytes, or -1.
  pub gethostname : Option (List ℕ)
  -- h_addr_list[0] of gethostbyname, as a network address.
  pub gethostbyname : List ℕ → List ℕ
  -- inet_ntop of an address into a buffer of the given size, or NULL.
  pub inet_ntop : List ℕ → ℕ → Option (List ℕ)
  -- inet_ntoa of an address.
  pub inet_ntoa : List ℕ → List ℕ
  -- Sock_ntop of the address that inet_aton reads, with SERVER_PORT: a text with a colon.
  pub sock_ntop : List ℕ → List ℕ
  -- The bytes of `self_ip_str` before anything is written to it.
  pub stack_bytes : List ℕ
  -- The bytes of a new entry's `dest_can_ip_str`, as malloc returns them.
  pub heap_bytes : List ℕ
  -- list_add on the routing table and on the list of interfaces.
  pub rtbl_add : Entry → List Entry → List Entry
  pub if_add : IfInfo → List IfInfo → List IfInfo
  -- The result of sendto, given what was sent before (newest first).
  pub sendto : List Out → Out → ℤ
  -- What the wait for the server process brings within three seconds, given what was sent.
  pub server_answer : List Out → Option (List ℕ)

-- list_add links a new entry behind the head, where a walk in reverse comes last.
pub record AddsLast (p : Platform) : Type 0 where
  pub rtbl_last : (e : Entry) (es : List Entry) → p.rtbl_add e es ≡ es ++ e ∷ []
  pub if_last : (i : IfInfo) (is : List IfInfo) → p.if_add i is ≡ is ++ i ∷ []
