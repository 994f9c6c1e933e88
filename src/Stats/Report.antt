-- ===== src/Stats/Report.antt =====
-- One counter: the reports add up to what was counted, and what a report says after a wrap.
use service_framework.Prelude.{ℕ, List, [], arith, ◌+◌, ◌-◌, ◌%◌, ◌^◌, ◌≤◌, ◌<◌, ◌≡◌, ◌≢◌, ◌∷◌}
use service_framework.Ids.{u64_mod}
use service_framework.Stats.{Stat, increase, decrease, calc_and_restore_last_stat}

pub data Event : Type 0 where
  add : ℕ → Event
  report : Event

-- The counter after the events, and the sum of the values that the reports returned.
unfoldable pub run : Stat → List Event → Stat × ℕ
run s [] = (s, 0)
run s (add diff ∷ es) = run (increase s diff) es
run s (report ∷ es) =
    let (s', value) = calc_and_restore_last_stat s in
    let (last, total) = run s' es in (last, value + total)

abbrev pub added : List Event → ℕ
added [] = 0
added (add diff ∷ es) = diff + added es
added (report ∷ es) = added es

-- While the counter stays below 2^64, nothing is lost or reported twice: the reports together, and
-- what the counter holds beyond its mark at the end, are what it held at the start and all that was
-- added since.
pub reports_add_up :
    (s : Stat) (es : List Event)
    → s.last_stat ≤ s.stat
    → s.stat + added es < u64_mod
    → let (last, total) = run s es in
      (total + (last.stat - last.last_stat) ≡ s.stat - s.last_stat + added es)
      × (last.last_stat ≤ last.stat)
      × (last.stat ≡ s.stat + added es)
unfolding run increase calc_and_restore_last_stat
reports_add_up s [] order room = omega arith
reports_add_up s (add diff ∷ es) order room = ground (arith, reports_add_up (increase s diff) es)
reports_add_up s (report ∷ es) order room =
    ground (arith, reports_add_up (calc_and_restore_last_stat s).0 es)

-- A counter that stands below its mark, after a wrap at 2^64 or after `Decrease`, reports the
-- difference modulo 2^64 and 2^32 - 1 on top of it, never the difference itself.
report_below_mark :
    (s : Stat)
    → s.stat < s.last_stat
    → s.last_stat < u64_mod
    → let difference = s.stat + u64_mod - s.last_stat in
      ((calc_and_restore_last_stat s).1 ≡ (difference + (2 ^ 32 - 1)) % u64_mod)
      × ((calc_and_restore_last_stat s).1 ≢ difference)
unfolding calc_and_restore_last_stat
report_below_mark s below range = ground arith

-- `Decrease` undoes `Increase`, also across a wrap.
decrease-increase :
    (s : Stat) (diff : ℕ) → s.stat < u64_mod → diff < u64_mod → decrease (increase s diff) diff ≡ s
unfolding decrease increase
decrease-increase s diff h k = ground arith
