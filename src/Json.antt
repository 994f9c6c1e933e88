-- ===== src/Json.antt =====
-- What the library asks of nlohmann::json (thirdparty/include/json.hpp): the operations are
-- parameters. `none` is no such key for `find`, and the exception `type_error` for the rest.
use service_framework.Prelude.{ℕ, String, Bool, false, Option, List, ltb, nat_eq, string_eq}

-- `int`, and the values that a configuration gives.
pub data ℤ : Type 0 where
  pos : ℕ → ℤ
  negsuc : ℕ → ℤ

-- `n > 0`, and `n` where that holds.
abbrev pub positive : ℤ → Bool
positive (pos n) = ltb 0 n
positive (negsuc n) = false

abbrev pub to_size : ℤ → ℕ
to_size (pos n) = n
to_size (negsuc n) = 0

pub record Json (J : Type 0) : Type 1 where
  pub find : J → String → Option J
  pub get_int : J → Option ℤ
  pub get_string : J → Option String
  pub items : J → List J
