-- ===== src/Clock.antt =====
-- `CallChainTimeUtil` of baselib/message_util/call_chain_util.h, `DiffTimeUtil` and the functions of
-- baselib/base/time_util.{h,cc}: times since an event. What `gettimeofday` gives is an argument.
pub mod Diff
mod Tests
use service_framework.Prelude.{ℕ, ltb, leb, ◌+◌, ◌-◌, ◌*◌, ◌/◌, ◌%◌, if◌then◌else◌}
use service_framework.Ids.{u64_mod}

pub record Timeval : Type 0 where
  pub tv_sec : ℕ
  pub tv_usec : ℕ

-- `NowInMsecTime` and `NowInUsecTime`, before their types end.
unfoldable pub now_in_msec_time : Timeval → ℕ
now_in_msec_time t = t.tv_sec * 1000 + t.tv_usec / 1000

unfoldable pub now_in_usec_time : Timeval → ℕ
now_in_usec_time t = t.tv_sec * 1000000 + t.tv_usec

unfoldable pub calc_time_val : Timeval → ℕ
calc_time_val t = (t.tv_sec * 1000000 + t.tv_usec) % u64_mod

pub record CallChainTimeUtil : Type 0 where
  pub chain_t : ℕ
  pub now : ℕ

-- The constructors without and with the time of the chain.
abbrev pub new_call_chain_time : Timeval → CallChainTimeUtil
new_call_chain_time t = record { chain_t = calc_time_val t; now = calc_time_val t }

abbrev pub call_chain_time_from : ℕ → Timeval → CallChainTimeUtil
call_chain_time_from b t = record { chain_t = b; now = calc_time_val t }

abbrev pub set_chain_time : CallChainTimeUtil → ℕ → CallChainTimeUtil
set_chain_time c t = record c { chain_t = t }

unfoldable pub reset : CallChainTimeUtil → Timeval → CallChainTimeUtil
reset c t = record c { now = calc_time_val t }

unfoldable pub get_diff_time : CallChainTimeUtil → Timeval → ℕ
get_diff_time c t = let n = calc_time_val t in if ltb n c.now then 0 else n - c.now

unfoldable pub get_diff_chain_time : CallChainTimeUtil → Timeval → ℕ
get_diff_chain_time c t = let n = calc_time_val t in if ltb n c.chain_t then 0 else n - c.chain_t

-- The two clock readings are those of the two calls.
unfoldable pub get_chain_diff_times : CallChainTimeUtil → Timeval → Timeval → ℕ × ℕ
get_chain_diff_times c t u = (get_diff_time c t, get_diff_chain_time c u)

-- `static_cast<uint64_t>((a - b) * k)` of numbers of type `long`.
abbrev signed_diff : ℕ → ℕ → ℕ
signed_diff a b = if leb b a then (a - b) % u64_mod else (u64_mod - (b - a) % u64_mod) % u64_mod

-- `DiffTimeUtil::GetDiffTime` from the time that is kept: `/ 1000` drops the fraction of a negative
-- number too, and the sum is one of 64 bits.
unfoldable pub get_diff_msec : Timeval → Timeval → ℕ
get_diff_msec now t =
    let secs = signed_diff (t.tv_sec * 1000) (now.tv_sec * 1000) in
    let usecs =
      if leb now.tv_usec t.tv_usec
      then (t.tv_usec - now.tv_usec) / 1000
      else (u64_mod - (now.tv_usec - t.tv_usec) / 1000) % u64_mod in
    (secs + usecs) % u64_mod
