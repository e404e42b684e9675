-- ===== src/Print/Hex.antt =====
-- A printed hardware address can be read back.
use Prim.Native.Nat.{◌/◌}
use odr.Prelude.{
  ℕ, zero, suc, ◌+◌, ◌-◌, ◌*◌, ◌%◌, ◌<◌, ◌≡◌, refl, sym, ap, ◌∙◌, List, [], ◌∷◌, ◌++◌, length, ltb,
  false, Option, none, some, ◌==◌, All, arith, Bool-cases, inl, inr, if◌then◌else◌,
}
use odr.CString.{bytes}
use odr.Print.{hex_digit, octet, octets, print_hwaddr, hw_text, prflag, hwa_row}
use odr.Hwaddrs.{HwaInfo}

-- The value of a digit of %x.
abbrev pub digit_value : ℕ → ℕ
digit_value c = if ltb c 97 then c - b'0' else c - 87

-- The bytes that a text of two digits and a separator for each byte stands for.
abbrev pub read_hwaddr : ℕ → List ℕ → List ℕ
read_hwaddr zero t = []
read_hwaddr (suc n) (a ∷ b ∷ sep ∷ t) = (digit_value a * 16 + digit_value b) ∷ read_hwaddr n t
read_hwaddr (suc n) [] = []
read_hwaddr (suc n) (a ∷ []) = []
read_hwaddr (suc n) (a ∷ b ∷ []) = []

digit_value-hex_digit : (d : ℕ) → d < 16 → digit_value (hex_digit d) ≡ d
unfolding hex_digit
digit_value-hex_digit d h = elim (Bool-cases (ltb d 10)) [
  | inl low ↦ ground arith
  | inr high ↦ ground arith
]

octet-value :
    (c : ℕ)
    → c < 256
    → digit_value (hex_digit (c % 256 / 16)) * 16 + digit_value (hex_digit (c % 16)) ≡ c
octet-value c h =
    let a = digit_value-hex_digit (c % 256 / 16) (omega arith) in
    let b = digit_value-hex_digit (c % 16) (omega arith) in rw (a, b) (omega arith)

octets-read :
    (hw rest : List ℕ) → All (λ c. c < 256) hw → read_hwaddr (length hw) (octets hw ++ rest) ≡ hw
unfolding octets octet
octets-read [] rest h = refl
octets-read (c ∷ cs) rest h = rw (octet-value c h.0, octets-read cs rest h.1)

hw_text-read : (hw : List ℕ) → All (λ c. c < 256) hw → read_hwaddr (length hw) (hw_text hw) ≡ hw
unfolding hw_text octet
hw_text-read [] h = refl
hw_text-read (c ∷ []) h = rw (octet-value c h.0)
hw_text-read (c ∷ d ∷ cs) h = rw (octet-value c h.0, hw_text-read (d ∷ cs) h.1)

bytes_whole : (n : ℕ) (a : List ℕ) → length a ≡ n → bytes n a ≡ a
unfolding bytes
bytes_whole zero [] h = refl
bytes_whole zero (c ∷ cs) h = absurd (omega arith)
bytes_whole (suc n) [] h = absurd (omega arith)
bytes_whole (suc n) (c ∷ cs) h = ap (◌∷◌ c) (bytes_whole n cs (omega arith))

-- Without a printed address all its bytes are NUL.
prflag-bytes : (hw : List ℕ) → prflag hw ≡ false → bytes (length hw) [] ≡ hw
unfolding prflag bytes
prflag-bytes [] h = refl
prflag-bytes (c ∷ cs) h = elim (Bool-cases (c == 0)) [
  | inl nul ↦
      let e : c ≡ 0 = ground arith in
      let rest : prflag cs ≡ false = ground arith in rw (e, prflag-bytes cs rest)
  | inr other ↦ absurd (ground arith)
]

-- The bytes that a row of prhwaddrs stands for.
abbrev pub read_row : Option (List ℕ) → List ℕ
read_row none = bytes 6 []
read_row (some t) = read_hwaddr 6 t

-- The six bytes of a hardware address can be read back from what print_hwaddr prints, and from
-- the row that prhwaddrs prints: where that has no address, all six are NUL.
pub hwaddr-printed :
    (h : HwaInfo)
    → length h.if_haddr ≡ 6
    → All (λ c. c < 256) h.if_haddr
    → (read_hwaddr 6 (print_hwaddr h.if_haddr) ≡ h.if_haddr)
      × (read_row (hwa_row h).hw ≡ h.if_haddr)
unfolding print_hwaddr hwa_row
hwaddr-printed h n small =
    let hw = h.if_haddr in
    let whole = bytes_whole 6 hw n in
    (
      rw whole
          (ap (λ k. read_hwaddr k (octets hw ++ 10 ∷ [])) (sym n) ∙ octets-read hw (10 ∷ []) small),
      rw whole (elim (Bool-cases (prflag hw)) [
        | inl shown ↦
            rw shown (ap (λ k. read_hwaddr k (hw_text hw)) (sym n) ∙ hw_text-read hw small)
        | inr nul ↦ rw nul (ap (λ k. bytes k []) (sym n) ∙ prflag-bytes hw nul)
      ]),
    )
