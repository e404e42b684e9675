-- ===== src/Client/Texts.antt =====
-- The texts that go from the client to its ODR process, and from the server back to the client.
use odr.Prelude.{
  ℕ, zero, suc, ◌≤◌, ◌<◌, ◌≡◌, ◌≢◌, refl, sym, ap, ◌∙◌, List, [], ◌∷◌, ◌++◌, arith, take, set,
  length, length-append, All, All-append,
}
use odr.Prelude.Int.{ℤ}
use odr.Structs.{OdrPack, OdrReply}
use odr.CString.{strncpy, memcpy, c_string, bytes}
use odr.CString.Laws.{strncpy-text, length-memcpy}
use odr.Odr.Data.{reply_data}
use odr.Client.{msg_send_pack, msg_recv, shown, time_str}

c_string-bytes : (a : List ℕ) (n : ℕ) → length (c_string a) < n → c_string (bytes n a) ≡ c_string a
unfolding c_string bytes
c_string-bytes a zero h = elim h [ ]
c_string-bytes [] (suc n) h = ground arith
c_string-bytes (c ∷ cs) (suc n) h = ground (arith, c_string-bytes cs n)

c_string-set : (a : List ℕ) (i : ℕ) → length (c_string a) ≤ i → c_string (set a i 0) ≡ c_string a
unfolding c_string
c_string-set [] i h = refl
c_string-set (c ∷ cs) zero h = ground arith
c_string-set (c ∷ cs) (suc i) h = ground (arith, c_string-set cs i)

memcpy_whole : (to from : List ℕ) → length from ≡ length to → memcpy to from ≡ from
unfolding memcpy
memcpy_whole [] [] h = refl
memcpy_whole [] (c ∷ cs) h = absurd (omega arith)
memcpy_whole (t ∷ ts) [] h = absurd (omega arith)
memcpy_whole (t ∷ ts) (c ∷ cs) h = ap (◌∷◌ c) (memcpy_whole ts cs (omega arith))

abbrev NoNul : List ℕ → Type 0
NoNul = All (λ c. c ≢ 0)

c_string-NoNul : (a : List ℕ) (n : ℕ) → NoNul (take n (c_string a))
unfolding c_string
c_string-NoNul a zero = tt
c_string-NoNul [] (suc n) = tt
c_string-NoNul (c ∷ cs) (suc n) = ground (arith, c_string-NoNul cs n)

c_string-memcpy :
    (to t : List ℕ) → NoNul t → length t < length to → c_string (memcpy to (t ++ 0 ∷ [])) ≡ t
unfolding c_string memcpy
c_string-memcpy [] t c h = elim h [ ]
c_string-memcpy (x ∷ to) [] c h = refl
c_string-memcpy (x ∷ to) (y ∷ t) c h = ground (arith, c_string-memcpy to t)

-- The ODR process reads the address that the client sent, if it has fewer than 15 characters,
-- whatever the two buffers of 32 bytes held.
request-text :
    (garbage msg ip : List ℕ) (flag : ℤ)
    → length garbage ≡ 32
    → length msg ≡ 32
    → length (c_string ip) < 15
    → c_string (strncpy msg (msg_send_pack garbage ip flag).msg 32) ≡ c_string ip
unfolding msg_send_pack
request-text garbage msg ip flag g m h =
    let sent : c_string (strncpy garbage ip 15) ≡ c_string ip =
      strncpy-text garbage ip 15 h (omega arith) in
    strncpy-text msg (strncpy garbage ip 15) 32 (rw sent (omega arith)) (omega arith) ∙ sent

length-take-le : (n : ℕ) (a : List ℕ) → length (take n a) ≤ n
length-take-le zero a = omega arith
length-take-le (suc n) [] = omega arith
length-take-le (suc n) (x ∷ a) = omega (arith, length-take-le n a)

pub take_all : (n : ℕ) (a : List ℕ) → length a ≡ n → take n a ≡ a
take_all zero [] h = refl
take_all zero (x ∷ a) h = absurd (omega arith)
take_all (suc n) [] h = refl
take_all (suc n) (x ∷ a) h = ap (◌∷◌ x) (take_all n a (omega arith))

-- What `ctime` says, in the form in which it travels.
abbrev pub time_text : List ℕ → List ℕ
time_text ctime = take 24 (c_string ctime) ++ 13 ∷ 10 ∷ []

length-time_text : (ctime : List ℕ) → length (time_text ctime) ≤ 26
length-time_text ctime = omega (
  arith,
  length-take-le 24 (c_string ctime),
  length-append {0} (take 24 (c_string ctime)) (13 ∷ 10 ∷ []),
)

-- The array of 32 bytes that the server fills.
module _ (old ctime : List ℕ) (ho : length old ≡ 32) where
  pub length-time_str : length (time_str old ctime) ≡ 32
  unfolding time_str
  length-time_str = length-memcpy old _ ∙ ho

  pub text-time_str : c_string (time_str old ctime) ≡ time_text ctime
  unfolding time_str
  text-time_str =
      let short : length (time_text ctime) ≤ 26 = length-time_text ctime in
      c_string-memcpy old (time_text ctime)
        (All-append (λ (c : ℕ). c ≢ 0) (take 24 (c_string ctime)) (13 ∷ 10 ∷ [])
          (c_string-NoNul ctime 24) (omega arith))
        (omega arith)

length-bytes : (n : ℕ) (a : List ℕ) → length (bytes n a) ≡ n
unfolding bytes
length-bytes zero a = refl
length-bytes (suc n) [] = ap suc (length-bytes n [])
length-bytes (suc n) (c ∷ cs) = ap suc (length-bytes n cs)

-- The client prints the text that the server wrote: the first 24 bytes of ctime and a line end
-- come unchanged through the server's datagram, the payload of a packet, the datagram to the
-- client and msg_recv. The buffers have the sizes that are declared.
pub time-text :
    (old ctime reply msg ip : List ℕ) (k : OdrPack) (ret : ℤ) (r : OdrReply)
    → length old ≡ 32
    → length reply ≡ 32
    → length k.payload ≡ 64
    → length msg ≡ 32
    → r.time ≡ bytes 32 (reply_data k (memcpy reply (take 32 (time_str old ctime)))).payload
    → c_string (shown (msg_recv ret r msg ip).1).time ≡ time_text ctime
unfolding reply_data shown msg_recv
time-text old ctime reply msg ip k ret r ho hr hk hm e =
    let t = time_text ctime in
    let a = time_str old ctime in
    let short : length t ≤ 26 = length-time_text ctime in
    let size : length a ≡ 32 = length-time_str old ctime ho in
    let text : c_string a ≡ t = text-time_str old ctime ho in
    let whole : memcpy reply (take 32 a) ≡ a =
      ap (memcpy reply) (take_all 32 a size) ∙ memcpy_whole reply a (size ∙ sym hr) in
    let carried : c_string (strncpy k.payload a 32) ≡ t =
      strncpy-text k.payload a 32 (rw text (omega arith)) (omega arith) ∙ text in
    let printed : c_string (bytes 32 (strncpy k.payload a 32)) ≡ t =
      c_string-bytes (strncpy k.payload a 32) 32 (rw carried (omega arith)) ∙ carried in
    let sent = bytes 32 (strncpy k.payload a 32) in
    let copied : memcpy msg sent ≡ sent = memcpy_whole msg sent (length-bytes 32 _ ∙ sym hm) in
    rw (e, whole, copied)
      (c_string-set (bytes 32 (strncpy k.payload a 32)) 30 (rw printed (omega arith)) ∙ printed)
