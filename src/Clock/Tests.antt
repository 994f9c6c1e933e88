-- ===== src/Clock/Tests.antt =====
-- Two readings of the clock, and the theorem at them.
use service_framework.Prelude.{refl, arith, ◌+◌, ◌-◌, ◌/◌, ◌≤◌, ◌≡◌}
use service_framework.Clock.{
  Timeval, get_diff_msec, now_in_usec_time, get_diff_time, reset, new_call_chain_time,
}
use service_framework.Clock.Diff.{get_diff_msec-get_diff_time}

abbrev before : Timeval
before = record { tv_sec = 1480000000; tv_usec = 500 }

abbrev later : Timeval
later = record { tv_sec = 1480000001; tv_usec = 0 }

-- 999.5 milliseconds, measured as 1000.
rounded_up : get_diff_msec before later ≡ 1000
unfolding get_diff_msec
rounded_up = refl

get_diff_msec-get_diff_time_example :
    let usec = get_diff_time (reset (new_call_chain_time before) before) later in
    (usec ≡ now_in_usec_time later - now_in_usec_time before)
    × (usec / 1000 ≤ get_diff_msec before later)
    × (get_diff_msec before later ≤ usec / 1000 + 1)
unfolding now_in_usec_time
get_diff_msec-get_diff_time_example =
    get_diff_msec-get_diff_time (new_call_chain_time before) before later
      (record { usec_range = omega arith; sec_range = omega arith })
      (record { usec_range = omega arith; sec_range = omega arith }) (omega arith)
