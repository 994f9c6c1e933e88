-- ===== src/UrlCodec/Shape.antt =====
-- What encoded texts look like, and how escapes in lower case are decoded.
use service_framework.Prelude.{
  ℕ, zero, suc, refl, ap, Bool, true, [], arith, ltb, leb, ==_iff, length, All, length-append,
  All-append, ◌+◌, ◌*◌, ◌/◌, ◌%◌, ◌≤◌, ◌<◌, ◌≡◌, ◌⊎◌, ◌&&◌, ◌∷◌, ◌==◌, if◌then◌else◌,
}
use service_framework.UrlCodec.{
  Bytes, to_hex, is_plain, encode_byte, url_encode, from_hex, join_hex, prepend, url_decode,
}
use service_framework.UrlCodec.RoundTrip.{IsBytes}

-- A byte that may stand in a query string as it is.
abbrev pub IsSafe : ℕ → Type 0
IsSafe c = (is_plain c ≡ true) ⊎ ((c ≡ b'+') ⊎ (c ≡ b'%'))

to_hex-IsSafe : (x : ℕ) → x < 16 → IsSafe (to_hex x)
unfolding to_hex is_plain
to_hex-IsSafe x h = ground arith

encode_byte-IsSafe : (c : ℕ) → c < 256 → All IsSafe (encode_byte c)
unfolding encode_byte
encode_byte-IsSafe c h =
    ground (arith, to_hex-IsSafe (c / 16) (omega arith), to_hex-IsSafe (c % 16) (omega arith))

length-encode_byte : (c : ℕ) → (1 ≤ length (encode_byte c)) × (length (encode_byte c) ≤ 3)
unfolding encode_byte
length-encode_byte c = ground arith

-- The encoding of a text of bytes holds only letters, digits and `- _ . ~ + %`.
url_encode-IsSafe : (s : Bytes) → IsBytes s → All IsSafe (url_encode s)
unfolding url_encode
url_encode-IsSafe [] h = tt
url_encode-IsSafe (c ∷ s) h =
    All-append IsSafe (encode_byte c) (url_encode s) (encode_byte-IsSafe c h.0)
      (url_encode-IsSafe s h.1)

-- The encoding of a text is at least as long as the text and at most three times as long.
length-url_encode :
    (s : Bytes) → (length s ≤ length (url_encode s)) × (length (url_encode s) ≤ 3 * length s)
unfolding url_encode
length-url_encode [] = omega arith
length-url_encode (c ∷ s) =
    let whole = length-append (encode_byte c) (url_encode s) in
    let one = length-encode_byte c in let rest = length-url_encode s in omega arith

-- The digit of an escape in lower case, as other programs write it.
abbrev pub lower_hex : ℕ → ℕ
lower_hex x = if ltb 9 x then x + 87 else x + 48

-- Which byte comes out of the escape of `c` in lower case.
abbrev pub lower_result : ℕ → ℕ
lower_result c = if leb 10 (c % 16) && c / 32 % 2 == 0 then c + 32 else c

all_below : ℕ → (ℕ → Bool) → Bool
all_below zero p = true
all_below (suc n) p = p n && all_below n p

all_below_at : (n : ℕ) (p : ℕ → Bool) (x : ℕ) → all_below n p ≡ true → x < n → p x ≡ true
unfolding all_below
all_below_at zero p x h lt = absurd (omega arith)
all_below_at (suc n) p x h lt = ground (arith, all_below_at n p x)

lower_table :
    all_below 256 (λ c. join_hex (lower_hex (c / 16)) (lower_hex (c % 16)) == lower_result c) ≡ true
unfolding all_below join_hex from_hex
lower_table = refl

-- `fromHex` takes every digit that is no decimal one for a capital letter: the escape of a byte in
-- lower case is decoded to the byte with 32 added if its last digit is a letter and its bit of value
-- 32 is clear, and to the byte otherwise.
url_decode_lower :
    (c : ℕ) (s : Bytes)
    → c < 256
    → url_decode (b'%' ∷ lower_hex (c / 16) ∷ lower_hex (c % 16) ∷ s)
      ≡ prepend (lower_result c) (url_decode s)
unfolding url_decode
url_decode_lower c s h =
    ap (λ b. prepend b (url_decode s)) ((==_iff _ _).0 (all_below_at 256 _ c lower_table h))
