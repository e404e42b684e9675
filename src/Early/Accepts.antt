-- ===== src/Early/Accepts.antt =====
-- What the client of client.c hands over.
use odr.Prelude.{ℕ, ◌≡◌, ◌≢◌, ◌↔◌, refl, false, List, [], ◌∷◌, arith, Bool-cases, inl, inr}
use odr.Prelude.Int.{ℤ, pos, ◌<ℤ◌, ◌==ℤ◌, ==ℤ_iff, ==ℤ_ne}
use odr.Structs.{minus_one}
use odr.CString.{c_string}
use odr.Client.{check_name}
use odr.Client.Names.{NodeName, check_name-NodeName}
use odr.Early.Client.{Calls, getserveraddr, main}

-- The result of the tests is 0 or -1.
check_name-result :
    (ret : ℤ) (vm_name : List ℕ)
    → (check_name ret vm_name ==ℤ minus_one) ≡ false
    → check_name ret vm_name ≡ pos 0
unfolding check_name
check_name-result ret vm_name h = ground arith

-- The client hands over the text of the address, once, exactly if the name that it read is one of
-- vm1 to vm10 and mkstemp makes a path, for a name that is not empty.
main-messages :
    (c : Calls)
    → pos 0 <ℤ c.scanf
    → c_string c.vm_name ≢ []
    → ((main c).1 ≡ c_string c.server_addr_str ∷ [])
      ↔ (NodeName (c_string c.vm_name) × (c.mkstemp ≢ minus_one))
unfolding main getserveraddr
main-messages c read named =
    let name = check_name-NodeName c.scanf c.vm_name read named in
    elim (Bool-cases (check_name c.scanf c.vm_name ==ℤ minus_one)) [
      | inl bad ↦
          let no : check_name c.scanf c.vm_name ≡ minus_one = (==ℤ_iff _ _).0 bad in
          rw (bad, main)
            (λ e. absurd cc, λ (v, path). absurd (let e = name.1 v in ground (arith, e, no)))
      | inr good ↦
          rw (good, main)
            (elim (Bool-cases (c.mkstemp ==ℤ minus_one)) [
              | inl none_made ↦
                  rw (none_made, main)
                    (
                      λ e. absurd cc,
                      λ (v, path). absurd (path ((==ℤ_iff c.mkstemp minus_one).0 none_made)),
                    )
              | inr made ↦
                  rw (made, main)
                    (
                      λ e. (
                        name.0 (check_name-result c.scanf c.vm_name good),
                        ==ℤ_ne c.mkstemp minus_one made,
                      ),
                      λ v. refl,
                    )
            ])
    ]
