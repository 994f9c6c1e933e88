-- ===== src/Clock/Diff.antt =====
-- How the two measures of time agree.
use service_framework.Prelude.{arith, leb, ◌+◌, ◌-◌, ◌*◌, ◌/◌, ◌≤◌, ◌<◌, ◌≡◌, if◌then◌else◌}
use service_framework.Ids.{u64_mod}
use service_framework.Clock.{
  Timeval, CallChainTimeUtil, now_in_usec_time, get_diff_time, reset, calc_time_val, get_diff_msec,
}

-- A reading of the clock, in a range that ends after 500000 years.
pub record IsReading (t : Timeval) : Type 0 where
  pub usec_range : t.tv_usec < 1000000
  pub sec_range : t.tv_sec * 1000000 + t.tv_usec < u64_mod

usec_lem :
    (c : CallChainTimeUtil) (now t : Timeval)
    → IsReading now
    → IsReading t
    → now_in_usec_time now ≤ now_in_usec_time t
    → get_diff_time (reset c now) t ≡ now_in_usec_time t - now_in_usec_time now
unfolding now_in_usec_time get_diff_time reset calc_time_val
usec_lem c now t v w h = ground (arith, v.sec_range, w.sec_range, h)

sec_le :
    (now t : Timeval)
    → IsReading now
    → IsReading t
    → now_in_usec_time now ≤ now_in_usec_time t
    → now.tv_sec ≤ t.tv_sec
unfolding now_in_usec_time
sec_le now t v w h = omega (arith, v.usec_range, w.usec_range, h)

msec_lem :
    (now t : Timeval)
    → IsReading now
    → IsReading t
    → now_in_usec_time now ≤ now_in_usec_time t
    → get_diff_msec now t ≡ (
        if leb now.tv_usec t.tv_usec
        then (t.tv_sec - now.tv_sec) * 1000 + (t.tv_usec - now.tv_usec) / 1000
        else (t.tv_sec - now.tv_sec) * 1000 - (now.tv_usec - t.tv_usec) / 1000)
unfolding get_diff_msec now_in_usec_time
msec_lem now t v w h =
    ground (arith, sec_le now t v w h, v.sec_range, w.sec_range, v.usec_range, w.usec_range, h)

-- Between two readings in order, CallChainTimeUtil gives the exact number of microseconds, and
-- DiffTimeUtil its whole milliseconds or one more.
pub get_diff_msec-get_diff_time :
    (c : CallChainTimeUtil) (now t : Timeval)
    → IsReading now
    → IsReading t
    → now_in_usec_time now ≤ now_in_usec_time t
    → let usec = get_diff_time (reset c now) t in
      (usec ≡ now_in_usec_time t - now_in_usec_time now)
      × (usec / 1000 ≤ get_diff_msec now t)
      × (get_diff_msec now t ≤ usec / 1000 + 1)
unfolding now_in_usec_time
get_diff_msec-get_diff_time c now t v w h = (
  usec_lem c now t v w h,
  ground (arith, usec_lem c now t v w h, msec_lem now t v w h, v.usec_range, w.usec_range, h),
  ground (arith, usec_lem c now t v w h, msec_lem now t v w h, v.usec_range, w.usec_range, h),
)
