-- ===== src/Snowflake/Process.antt =====
-- `GetNextIDBySnowflake` of baselib/base/snowflake_id_util.cc: the workers of a process, one for each
-- thread that has asked for an id.
use service_framework.Prelude.{ℕ, Option, none, some, List, find, insert, modify, nat_eq, string_eq}
use service_framework.Snowflake.{
  IdWorker, Clock, Globals, get_next_id, make_thread_local_worker, new_id_worker,
}

-- `g_cache` of `GetIdWorkerByThreadLocal`, with the globals. Threads are numbers.
pub record Workers : Type 0 where
  pub globals : Globals
  pub cache : List (ℕ × IdWorker)

-- The worker of a thread, made when there is none; `last_timestamp` is what its uninitialised field
-- then holds.
unfoldable pub get_id_worker_by_thread_local : Workers → ℕ → ℕ → Workers × IdWorker
get_id_worker_by_thread_local s thread last_timestamp = elim (find thread s.cache) [
  | some w ↦ (s, w)
  | none ↦
      let (g, w) = make_thread_local_worker s.globals last_timestamp in
      (record s { globals = g; cache = insert thread w s.cache }, w)
]

-- The call on a thread; the worker is changed in the cache.
unfoldable pub get_next_id_by_snowflake : Workers → ℕ → ℕ → Clock → Option (Workers × ℕ × Clock)
get_next_id_by_snowflake s thread last_timestamp clock =
    let (s', w) = get_id_worker_by_thread_local s thread last_timestamp in
    elim (get_next_id w clock) [
      | none ↦ none
      | some (w', id, clock') ↦
          some (record s' { cache = modify thread (λ old. w') s'.cache }, id, clock')
    ]

-- `GetNextIDBySnowflakeUnSafe`, of its one worker.
unfoldable pub get_next_id_by_snowflake_unsafe : IdWorker → Clock → Option (IdWorker × ℕ × Clock)
get_next_id_by_snowflake_unsafe w clock = get_next_id w clock

-- The worker of `GetNextIDBySnowflakeUnSafe`, made at its first call.
abbrev pub unsafe_worker : Globals → ℕ → IdWorker
unsafe_worker g last_timestamp = new_id_worker g.worker_id g.data_center_id last_timestamp
