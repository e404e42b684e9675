-- ===== src/Hwaddrs/Interfaces.antt =====
-- The interfaces that the process sends through.
use mathlib.Core.List.{append-nil, append_assoc}
use odr.Prelude.{
  ℕ, ◌≡◌, ◌↔◌, ◌≢◌, ap, ◌∙◌, sym, true, List, [], ◌∷◌, ◌++◌, map, arith, take, if◌then◌else◌,
  Bool-cases, inl, inr,
}
use odr.Structs.{IfInfo}
use odr.CString.{c_string}
use odr.CString.Laws.{strncmp_eq_sound, strncmp_eq_complete}
use odr.Platform.{Platform, AddsLast}
use odr.Hwaddrs.{HwaInfo, is_routed, if_info_of, fill_if_info_list}

-- A name that begins neither with "lo" nor with "eth0".
pub record Routed (h : HwaInfo) : Type 0 where
  pub no_loopback : take 2 (c_string h.if_name) ≢ b'l' ∷ b'o' ∷ []
  pub no_eth0 : take 4 (c_string h.if_name) ≢ b'e' ∷ b't' ∷ b'h' ∷ b'0' ∷ []

-- An interface is used if and only if its name begins neither with lo nor with eth0.
is_routed-Routed : (h : HwaInfo) → (is_routed h ≡ true) ↔ Routed h
unfolding is_routed c_string
is_routed-Routed h =
    let lo : List ℕ = b'l' ∷ b'o' ∷ [] in
    let eth0 : List ℕ = b'e' ∷ b't' ∷ b'h' ∷ b'0' ∷ [] in
    (
      λ t. record {
        no_loopback = λ e. ground (arith, strncmp_eq_complete h.if_name lo 2 e);
        no_eth0 = λ e. ground (arith, strncmp_eq_complete h.if_name eth0 4 e);
      },
      λ r. ground (
        arith,
        r.no_loopback,
        r.no_eth0,
        strncmp_eq_sound h.if_name lo 2,
        strncmp_eq_sound h.if_name eth0 4,
      ),
    )

-- The entries that are kept, in order.
abbrev pub routed : List HwaInfo → List HwaInfo
routed [] = []
routed (h ∷ hs) = if is_routed h then h ∷ routed hs else routed hs

-- Where list_add adds last, the list of interfaces grows by the address and the index of each
-- entry that is neither the loopback interface nor eth0, in order.
pub fill-map :
    (p : Platform) (last : AddsLast p) (hs : List HwaInfo) (l : List IfInfo)
    → fill_if_info_list p hs l ≡ l ++ map if_info_of (routed hs)
unfolding fill_if_info_list
fill-map p last [] l = sym (append-nil l)
fill-map p last (h ∷ hs) l = elim (Bool-cases (is_routed h)) [
  | inl keep ↦
      rw (keep, fill_if_info_list)
        (fill-map p last hs (p.if_add (if_info_of h) l)
          ∙ ap (λ m. m ++ map if_info_of (routed hs)) (last.if_last (if_info_of h) l)
          ∙ append_assoc l (if_info_of h ∷ []) (map if_info_of (routed hs)))
  | inr skip ↦ rw (skip, fill_if_info_list) (fill-map p last hs l)
]
