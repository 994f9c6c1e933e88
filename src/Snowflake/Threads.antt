-- ===== src/Snowflake/Threads.antt =====
-- The workers that the threads get from `GetIdWorkerByThreadLocal`.
use service_framework.Prelude.{ℕ, zero, suc, refl, arith, ◌+◌, ◌%◌, ◌^◌, ◌<◌, ◌≡◌, ◌↔◌}
use service_framework.Snowflake.{IdWorker, pack_id, Globals, make_thread_local_worker}
use service_framework.Snowflake.Fields.{pack_id_same_iff}
use service_framework.Snowflake.Sequence.{issued}

-- The globals after `n` threads have made their workers.
unfoldable pub after_threads : ℕ → Globals → Globals
after_threads zero g = g
after_threads (suc n) g = (make_thread_local_worker (after_threads n g) 0).0

abbrev pub thread_worker : ℕ → Globals → ℕ → IdWorker
thread_worker n g last_timestamp = (make_thread_local_worker (after_threads n g) last_timestamp).1

pub after_threads_lem :
    (n : ℕ) (g : Globals)
    → g.thread_id < 2 ^ 16
    → after_threads n g ≡ record g { thread_id = (g.thread_id + n) % 2 ^ 16 }
unfolding after_threads make_thread_local_worker
after_threads_lem zero g h = ground arith
after_threads_lem (suc n) g h = ground (arith, after_threads_lem n g h)

-- The workers of two threads give the same id at the same time and counter exactly when the threads
-- came a multiple of 32 apart: the thread's number goes into a field of 5 bits.
thread_ids_collide_iff :
    (i j : ℕ) (g : Globals) (last timestamp sequence : ℕ)
    → g.thread_id < 2 ^ 16
    → (issued (thread_worker i g last) timestamp sequence).1
        ≡ (issued (thread_worker j g last) timestamp sequence).1
      ↔ i % 32 ≡ j % 32
unfolding make_thread_local_worker
thread_ids_collide_iff i j g last t s h =
    rw (after_threads_lem i g h, after_threads_lem j g h)
      ((λ e. omega (arith, (same.0 e).1)), λ e. same.1 (refl, omega arith, refl, refl))
  where
    same :
        pack_id t ((g.thread_id + i) % 2 ^ 16) g.worker_id s
          ≡ pack_id t ((g.thread_id + j) % 2 ^ 16) g.worker_id s
        ↔ (t % 2 ^ 25 ≡ t % 2 ^ 25)
          × ((g.thread_id + i) % 2 ^ 16 % 32 ≡ (g.thread_id + j) % 2 ^ 16 % 32)
          × (g.worker_id % 32 ≡ g.worker_id % 32)
          × (s % 4096 ≡ s % 4096)
    same = pack_id_same_iff _ _ _ _ _ _ _ _
