-- ===== src/UrlCodec/Tests.antt =====
-- The theorems about the URL encoding at concrete texts.
use Prim.Native.Char.{code}
use service_framework.Prelude.{String, refl, none, some, [], arith, ◌≡◌, ◌∷◌}
use service_framework.UrlCodec.{
  Bytes, to_hex, is_plain, encode_byte, url_encode, from_hex, join_hex, url_decode,
}
use service_framework.UrlCodec.RoundTrip.{url_decode-url_encode}

abbrev codes : String → Bytes
codes String.[] = []
codes (String.◌∷◌ c s) = code c ∷ codes s

encoded : url_encode (codes "a b/c") ≡ codes "a+b%2Fc"
unfolding url_encode encode_byte is_plain to_hex
encoded = refl

-- A newline becomes a star.
newline : url_decode (codes "%0a") ≡ some (codes "*")
unfolding url_decode join_hex from_hex
newline = refl

cut_off : (url_decode (codes "x%") ≡ none) × (url_decode (codes "%4") ≡ some (201 ∷ []))
unfolding url_decode join_hex from_hex
cut_off = (refl, refl)

url_decode-url_encode_example : url_decode (url_encode (codes "a b/c")) ≡ some (codes "a b/c")
url_decode-url_encode_example = url_decode-url_encode (codes "a b/c") (omega arith)
