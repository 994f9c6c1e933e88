-- ===== src/Stats/Tests.antt =====
-- The theorems about the counters at concrete values.
use service_framework.Prelude.{refl, [], arith, ◌+◌, ◌-◌, ◌≤◌, ◌≡◌, ◌∷◌}
use service_framework.Stats.{
  Stat, Stats, decrease, calc_and_restore_last_stat, new_stats, init_stat, on_stat, decrease_at,
  get_latest_stat, get_stats_name,
}
use service_framework.Stats.Report.{add, report, run, added, reports_add_up}

abbrev requests : Stat
requests = record { stat_name = "f_http"; last_stat = 10; stat = 12 }

abbrev wrapped : Stat
wrapped = record { stat_name = "f_http"; last_stat = 18446744073709551614; stat = 3 }

abbrev pair_of_stats : Stats
pair_of_stats = record { stats_name = "fiber"; stats = requests ∷ wrapped ∷ [] }

-- Five more were counted, and 4294967300 is reported.
wrapped_report : (calc_and_restore_last_stat wrapped).1 ≡ 4294967300
unfolding calc_and_restore_last_stat
wrapped_report = refl

named : get_stats_name (init_stat (new_stats "fiber" 6) 5 "f_http") 5 ≡ "f_http"
unfolding get_stats_name init_stat on_stat new_stats
named = refl

counted_down : get_latest_stat (decrease_at pair_of_stats 0 2) 0 ≡ 10
unfolding get_latest_stat decrease_at on_stat decrease
counted_down = refl

reports_add_up_example :
    let (last, total) = run requests (add 3 ∷ report ∷ add 4 ∷ []) in
    (total + (last.stat - last.last_stat) ≡ 12 - 10 + added (add 3 ∷ report ∷ add 4 ∷ []))
    × (last.last_stat ≤ last.stat)
    × (last.stat ≡ 12 + added (add 3 ∷ report ∷ add 4 ∷ []))
reports_add_up_example =
    reports_add_up requests (add 3 ∷ report ∷ add 4 ∷ []) (omega arith) (omega arith)
