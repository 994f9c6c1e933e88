-- ===== src/Snowflake/Tests.antt =====
-- The theorems about the ids at concrete workers and clocks.
use service_framework.Prelude.{
  ℕ, refl, sym, subst, some, [], arith, All, find, insert, modify, ◌/◌, ◌%◌, ◌^◌, ◌≡◌, ◌∙◌, ◌≢◌,
  ◌↔◌, ◌∷◌, nat_eq, string_eq,
}
use service_framework.Snowflake.{
  TimeVal, IdWorker, new_id_worker, now_in_msec, til_next_millis, pack_id, emit_id, get_next_id,
  Globals, make_thread_local_worker,
}
use service_framework.Snowflake.Process.{
  Workers, get_id_worker_by_thread_local, get_next_id_by_snowflake,
}
use service_framework.Snowflake.Unique.{Gives, at_start, one_more, IsReady, HasRoom, some_same}
use service_framework.Snowflake.Fresh.{get_next_id_by_snowflake-fresh}
use service_framework.Snowflake.Sequence.{
  til_next_millis_returns, burst, last_id, burst_repeats_iff,
}

abbrev noon : TimeVal
noon = record { tv_sec = 1500000000; tv_usec = 5999 }

abbrev later : TimeVal
later = record { tv_sec = 1500000000; tv_usec = 6000 }

abbrev worker : IdWorker
worker = new_id_worker 1 1 0

first_id :
    get_next_id worker (noon ∷ [])
    ≡ some (
      record {
        worker_id = 1;
        data_center_id = 1;
        last_timestamp = 1500000000005;
        sequence_number = 0;
      },
      68058072879104,
      [],
    )
unfolding get_next_id now_in_msec emit_id pack_id
first_id = refl

til_next_millis_returns_example :
    til_next_millis 1500000000005 (noon ∷ noon ∷ later ∷ []) ≡ some (now_in_msec later, [])
unfolding now_in_msec
til_next_millis_returns_example =
    til_next_millis_returns 1500000000005 (noon ∷ noon ∷ []) later [] (omega arith) (omega arith)

burst_repeats_iff_example :
    last_id (burst 0 worker noon) ≡ last_id (burst 4096 worker noon) ↔ 0 % 4096 ≡ 4096 % 4096
unfolding now_in_msec
burst_repeats_iff_example = burst_repeats_iff 0 4096 worker noon (omega arith) (omega arith)

-- A process whose thread 5 has asked for an id at noon.
abbrev at_first : Globals
at_first = record { worker_id = 1; data_center_id = 1; thread_id = 0 }

abbrev no_workers : Workers
no_workers = record { globals = at_first; cache = [] }

abbrev worker_of_five : IdWorker
worker_of_five = record {
  worker_id = 1;
  data_center_id = 0;
  last_timestamp = now_in_msec noon;
  sequence_number = 0;
}

abbrev after_one : Workers
after_one = record { globals = record at_first { thread_id = 1 }; cache = (5, worker_of_five) ∷ [] }

five_found : find 5 after_one.cache ≡ some worker_of_five
unfolding find
five_found = refl

abbrev noon_window : ℕ
noon_window = now_in_msec noon / 2 ^ 25

first_of_process :
    get_next_id_by_snowflake no_workers 5 0 (noon ∷ [])
    ≡ some (after_one, pack_id (now_in_msec noon) 0 1 0, [])
unfolding get_next_id_by_snowflake get_id_worker_by_thread_local make_thread_local_worker
    get_next_id emit_id now_in_msec find modify insert
first_of_process = refl

one_given : Gives noon_window at_first after_one (pack_id (now_in_msec noon) 0 1 0 ∷ [])
unfolding now_in_msec
one_given =
    one_more no_workers after_one [] 5 0 (pack_id (now_in_msec noon) 0 1 0) noon
      (at_start no_workers refl)
      (refl, (λ free. omega arith), λ w there. absurd (unfold find in cc there)) first_of_process

again-IsReady : IsReady noon_window after_one 5 noon
unfolding now_in_msec
again-IsReady = (
  refl,
  (λ free. omega arith),
  λ w there.
      subst (λ v. HasRoom v noon) (some_same (sym five_found ∙ there))
        (omega arith, λ same. omega arith),
)

get_next_id_by_snowflake-fresh_example :
    (s' : Workers) × (id : ℕ) × (get_next_id_by_snowflake after_one 5 0 (noon ∷ [])
      ≡ some (s', id, []))
    × All (λ y. y ≢ id) (pack_id (now_in_msec noon) 0 1 0 ∷ [])
    × Gives noon_window at_first s' (id ∷ pack_id (now_in_msec noon) 0 1 0 ∷ [])
get_next_id_by_snowflake-fresh_example =
    get_next_id_by_snowflake-fresh 5 0 noon (omega arith) one_given again-IsReady
