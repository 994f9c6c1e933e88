-- ===== src/UrlCodec/RoundTrip.antt =====
-- Decoding an encoded text gives the text back.
use service_framework.Prelude.{
  ℕ, refl, ap, some, [], arith, All, bit_or_shifted, ◌*◌, ◌/◌, ◌%◌, ◌^◌, ◌<◌, ◌≡◌, ◌∙◌, ◌≢◌, ◌∷◌,
  ◌++◌,
}
use service_framework.UrlCodec.{
  Bytes, to_hex, is_plain, encode_byte, url_encode, from_hex, join_hex, prepend, url_decode,
}

abbrev pub IsBytes : Bytes → Type 0
IsBytes = All (λ c. c < 256)

from_hex-to_hex : (x : ℕ) → x < 16 → from_hex (to_hex x) ≡ x
unfolding from_hex to_hex
from_hex-to_hex x h = ground arith

-- The two digits of a byte.
join_hex-to_hex : (c : ℕ) → c < 256 → join_hex (to_hex (c / 16)) (to_hex (c % 16)) ≡ c
unfolding join_hex
join_hex-to_hex c h =
    let high = from_hex-to_hex (c / 16) (omega arith) in
    let low = from_hex-to_hex (c % 16) (omega arith) in
    let shift : c / 16 * 16 % 256 ≡ c / 16 * 2 ^ 4 = omega arith in
    rw (high, low, shift) (omega (arith, bit_or_shifted 4 (c / 16) (c % 16) (omega arith)))

-- A byte that is no `%` and no `+` is read alone, whatever follows.
decode_plain :
    (c : ℕ) (s : Bytes) → c ≢ b'%' → c ≢ b'+' → url_decode (c ∷ s) ≡ prepend c (url_decode s)
unfolding url_decode
decode_plain c [] h k = ground arith
decode_plain c (a ∷ []) h k = ground arith
decode_plain c (a ∷ b ∷ s) h k = ground arith

decode_plus : (s : Bytes) → url_decode (b'+' ∷ s) ≡ prepend b' ' (url_decode s)
unfolding url_decode
decode_plus [] = refl
decode_plus (a ∷ []) = refl
decode_plus (a ∷ b ∷ s) = refl

decode-encode_byte :
    (c : ℕ) (s : Bytes) → c < 256 → url_decode (encode_byte c ++ s) ≡ prepend c (url_decode s)
unfolding encode_byte is_plain
decode-encode_byte c s h = ground (
  arith,
  decode_plain c s,
  decode_plus s,
  decode_escape (to_hex (c / 16)) (to_hex (c % 16)) s,
  join_hex-to_hex c,
)
  where
    decode_escape :
        (a b : ℕ) (r : Bytes)
        → url_decode (b'%' ∷ a ∷ b ∷ r) ≡ prepend (join_hex a b) (url_decode r)
    decode_escape a b r = unfold url_decode in refl

-- `URLDecode` undoes `UrlEncode` on every text of bytes, and reads nothing behind its end.
pub url_decode-url_encode : (s : Bytes) → IsBytes s → url_decode (url_encode s) ≡ some s
unfolding url_encode
url_decode-url_encode [] h = unfold url_decode in refl
url_decode-url_encode (c ∷ s) h =
    decode-encode_byte c (url_encode s) h.0 ∙ ap (prepend c) (url_decode-url_encode s h.1)
