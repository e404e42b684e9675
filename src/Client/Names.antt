-- ===== src/Client/Names.antt =====
-- Which names `getserveraddr` accepts.
use odr.Prelude.{
  ℕ, ◌≤◌, ◌<◌, ◌≡◌, ◌≢◌, false, ◌⊎◌, ◌↔◌, refl, List, [], ◌∷◌, arith, take, ◌==◌, Bool-cases, inl,
  inr,
}
use odr.Prelude.Int.{ℤ, pos, ◌<ℤ◌, ◌≤ℤ◌}
use odr.CString.{byte_at, strncmp_eq, c_string}
use odr.CString.Laws.{strncmp_eq_sound}
use odr.Client.{name_size, is_vm_digit, is_vm_ten, check_name, getserveraddr}

-- vm1 to vm9, or vm10.
abbrev pub NodeName : List ℕ → Type 0
NodeName t =
    ((d : ℕ) × (b'0' < d) × (d ≤ b'9') × (t ≡ b'v' ∷ b'm' ∷ d ∷ []))
    ⊎ (t ≡ b'v' ∷ b'm' ∷ b'1' ∷ b'0' ∷ [])

-- A name that scanf has read, and that is not empty, is accepted only if it is one of vm1 to
-- vm10.
accepted-NodeName :
    (ret : ℤ) (vm_name : List ℕ)
    → pos 0 <ℤ ret
    → c_string vm_name ≢ []
    → check_name ret vm_name ≡ pos 0
    → NodeName (c_string vm_name)
unfolding check_name name_size is_vm_digit is_vm_ten c_string byte_at
accepted-NodeName ret [] h n e = absurd (n refl)
accepted-NodeName ret (a ∷ []) h n e = absurd (ground arith)
accepted-NodeName ret (a ∷ b ∷ []) h n e = absurd (ground arith)
accepted-NodeName ret (a ∷ b ∷ c ∷ []) h n e = inl (c, ground arith, ground arith, ground arith)
accepted-NodeName ret (a ∷ b ∷ c ∷ d ∷ []) h n e = elim (Bool-cases (d == 0)) [
  | inl short ↦ inl (c, ground arith, ground arith, ground arith)
  | inr long ↦ inr (ground arith)
]
accepted-NodeName ret (a ∷ b ∷ c ∷ d ∷ x ∷ r) h n e = elim (Bool-cases (d == 0)) [
  | inl short ↦ inl (c, ground arith, ground arith, ground arith)
  | inr long ↦ inr (ground arith)
]

-- Each of vm1 to vm10 is accepted, once scanf has read it.
NodeName-accepted :
    (ret : ℤ) (vm_name : List ℕ)
    → pos 0 <ℤ ret
    → NodeName (c_string vm_name)
    → check_name ret vm_name ≡ pos 0
unfolding check_name name_size is_vm_digit is_vm_ten c_string byte_at
NodeName-accepted ret [] h (inl (d, lo, hi, e)) = cc
NodeName-accepted ret [] h (inr e) = cc
NodeName-accepted ret (a ∷ []) h v = ground arith
NodeName-accepted ret (a ∷ b ∷ []) h v = ground arith
NodeName-accepted ret (a ∷ b ∷ c ∷ []) h v = ground arith
NodeName-accepted ret (a ∷ b ∷ c ∷ d ∷ []) h v = ground arith
NodeName-accepted ret (a ∷ b ∷ c ∷ d ∷ x ∷ r) h v = ground arith

pub check_name-NodeName :
    (ret : ℤ) (vm_name : List ℕ)
    → pos 0 <ℤ ret
    → c_string vm_name ≢ []
    → (check_name ret vm_name ≡ pos 0) ↔ NodeName (c_string vm_name)
check_name-NodeName ret vm_name h n =
    (accepted-NodeName ret vm_name h n, NodeName-accepted ret vm_name h)

-- Such a name does not begin with another letter.
NodeName-begins :
    (vm_name : List ℕ) (c : ℕ)
    → c ≢ b'v'
    → c ≢ 0
    → NodeName (c_string vm_name)
    → strncmp_eq vm_name (c ∷ []) 1 ≡ false
unfolding c_string
NodeName-begins vm_name c d z v = elim (Bool-cases (strncmp_eq vm_name (c ∷ []) 1)) [
  | inr other ↦ other
  | inl same ↦
      let e = strncmp_eq_sound vm_name (c ∷ []) 1 same in
      elim v [ inl (b, lo, hi, t) ↦ absurd (ground arith) | inr t ↦ absurd (ground arith) ]
]

-- A name that scanf has read, and that is not empty, is accepted if and only if it is one of vm1
-- to vm10, the name of the client's own node included.
pub getserveraddr-NodeName :
    (ret : ℤ) (vm_name : List ℕ)
    → pos 0 <ℤ ret
    → c_string vm_name ≢ []
    → (getserveraddr ret vm_name ≡ pos 0) ↔ NodeName (c_string vm_name)
unfolding getserveraddr
getserveraddr-NodeName ret vm_name h n = (
  λ e. (check_name-NodeName ret vm_name h n).0 (ground arith),
  λ v.
      rw
        (
          NodeName-begins vm_name b'q' (λ e. absurd (ground arith)) (λ e. absurd (ground arith)) v,
          NodeName-begins vm_name b'Q' (λ e. absurd (ground arith)) (λ e. absurd (ground arith)) v,
        )
        ((check_name-NodeName ret vm_name h n).1 v),
)

-- An end of input is accepted too, with whatever the buffer held, unless that begins with a q.
unread_accepted :
    (ret : ℤ) (vm_name : List ℕ)
    → ret ≤ℤ pos 0
    → take 1 (c_string vm_name) ≢ b'q' ∷ []
    → take 1 (c_string vm_name) ≢ b'Q' ∷ []
    → getserveraddr ret vm_name ≡ pos 0
unfolding getserveraddr check_name c_string
unread_accepted ret vm_name h q r =
    ground (arith, strncmp_eq_sound vm_name (b'q' ∷ []) 1, strncmp_eq_sound vm_name (b'Q' ∷ []) 1)
