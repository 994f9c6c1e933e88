-- ===== src/Util.antt =====
-- The numbers and the clock of baselib/base/util.cc. `folly::to` is a parameter: `none` is its exception.
use service_framework.Prelude.{
  ℕ, String, inl, inr, Option, none, some, arith, ltb, Bool-cases, ◌+◌, ◌*◌, ◌/◌, ◌%◌, ◌≤◌, ◌<◌,
  ◌≡◌, if◌then◌else◌,
}
use service_framework.Ids.{u32_mod, u64_mod}
use service_framework.Clock.{Timeval}

-- `get_local_time`, of what `gettimeofday` gives.
unfoldable pub get_local_time : Timeval → ℕ
get_local_time t = (t.tv_sec * 1000 + t.tv_usec / 1000) % u64_mod

-- `to_text` is `folly::to<std::string>`; `parse` is `folly::to` of a type with values below a bound.
module _ (to_text : ℕ → String) (parse : ℕ → String → Option ℕ) where
  unfoldable pub int2string : ℕ → String
  int2string user_id = to_text user_id

  unfoldable pub long2string : ℕ → String
  long2string value = to_text value

  unfoldable pub string2int : String → ℕ
  string2int value = elim (parse u32_mod value) [ none ↦ 0 | some n ↦ n ]

  unfoldable pub string2long : String → ℕ
  string2long value = elim (parse u64_mod value) [ none ↦ 0 | some n ↦ n ]

  -- Where `folly::to` reads the numbers that it writes, and throws for those that are too large: a
  -- number of 64 bits comes back from `string2long`, and is 0 for `string2int` from 2^32 on.
  string2int-long2string :
      (n : ℕ)
      → ((bound k : ℕ) → k < bound → parse bound (to_text k) ≡ some k)
      → ((bound k : ℕ) → bound ≤ k → parse bound (to_text k) ≡ none)
      → n < u64_mod
      → (string2long (long2string n) ≡ n)
        × (string2int (long2string n) ≡ (if ltb n u32_mod then n else 0))
  unfolding string2int string2long long2string
  string2int-long2string n reads refuses small = elim (Bool-cases (ltb n u32_mod)) [
    | inl fits ↦ (ground (arith, reads u64_mod n), ground (arith, fits, reads u32_mod n))
    | inr large ↦ (ground (arith, reads u64_mod n), ground (arith, large, refuses u32_mod n))
  ]
