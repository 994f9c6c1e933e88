-- ===== src/UrlCodec.antt =====
-- `UrlEncode` and `URLDecode` of baselib/base/util.cc over bytes (numbers below 256), `isalnum` and
-- `isdigit` as in the C locale. `none` is a read behind the terminating NUL of the text.
pub mod RoundTrip
pub mod Shape
mod Tests
use service_framework.Prelude.{
  ℕ, bit_or, Bool, Option, none, some, List, [], ltb, leb, ◌+◌, ◌-◌, ◌*◌, ◌/◌, ◌%◌, ◌&&◌, ◌||◌, ◌∷◌,
  ◌++◌, ◌==◌, if◌then◌else◌,
}

abbrev pub Bytes : Type 0
Bytes = List ℕ

abbrev pub is_digit : ℕ → Bool
is_digit c = leb b'0' c && leb c b'9'

abbrev pub is_alnum : ℕ → Bool
is_alnum c = is_digit c || (leb b'A' c && leb c b'Z') || (leb b'a' c && leb c b'z')

-- `ToHex`, an unsigned char
unfoldable pub to_hex : ℕ → ℕ
to_hex x = if ltb 9 x then (x + 55) % 256 else (x + 48) % 256

-- The test of the first branch of the loop.
unfoldable pub is_plain : ℕ → Bool
is_plain c = is_alnum c || c == b'-' || c == b'_' || c == b'.' || c == b'~'

-- What one round of the loop appends.
unfoldable pub encode_byte : ℕ → Bytes
encode_byte c =
    if is_plain c
    then c ∷ []
    else if c == b' '
    then b'+' ∷ []
    else b'%' ∷ to_hex (c / 16) ∷ to_hex (c % 16) ∷ []

unfoldable pub url_encode : Bytes → Bytes
url_encode [] = []
url_encode (c ∷ s) = encode_byte c ++ url_encode s

-- `fromHex`: a char, as its 8 bits.
unfoldable pub from_hex : ℕ → ℕ
from_hex x = if is_digit x then x - b'0' else (x + 256 - b'A' + 10) % 256

-- `ch = (fromHex(a)<<4); ch |= fromHex(b);`
unfoldable pub join_hex : ℕ → ℕ → ℕ
join_hex a b = bit_or (from_hex a * 16 % 256) (from_hex b) % 256

-- `sOut += ch` before what the rest of the loop appends.
abbrev pub prepend : ℕ → Option Bytes → Option Bytes
prepend c none = none
prepend c (some s) = some (c ∷ s)

-- The loop: `sIn[size]` is NUL, and what lies behind it may not be read.
unfoldable pub url_decode : Bytes → Option Bytes
url_decode [] = some []
url_decode (c ∷ []) =
    if c == b'%' then none else if c == b'+' then some (b' ' ∷ []) else some (c ∷ [])
url_decode (c ∷ a ∷ []) =
    let one = url_decode (a ∷ []) in
    if c == b'%'
    then some (join_hex a 0 ∷ [])
    else if c == b'+'
    then prepend b' ' one
    else prepend c one
url_decode (c ∷ a ∷ b ∷ s) =
    let escape = url_decode s in
    let one = url_decode (a ∷ b ∷ s) in
    if c == b'%'
    then prepend (join_hex a b) escape
    else if c == b'+'
    then prepend b' ' one
    else prepend c one
