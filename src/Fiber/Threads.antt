-- ===== src/Fiber/Threads.antt =====
-- `GetFiberDataManagerByThreadLocal` of baselib/net/fiber_data_manager.cc: a process has one manager
-- for each thread that has asked for one. Threads are numbers.
use service_framework.Prelude.{
  inl, inr, none, arith, Option-cases, find-insert, ◌≡◌, ◌≢◌, nat_eq, string_eq,
}
use service_framework.Fiber.{
  FiberDataManager, new_fiber_data_manager, fiber_max_queue_size, initialize, ℕ, List, find, some,
  insert,
}

-- `FiberDataManager(main_evb, thread_id, max_queue_size)`
abbrev pub new_initialized_manager : ℕ → ℕ → ℕ → FiberDataManager
new_initialized_manager main_evb thread_id max_queue_size =
    initialize (new_fiber_data_manager max_queue_size) main_evb thread_id

-- `g_cache`, with the manager that is made at the first call of a thread.
unfoldable pub get_fiber_data_manager_by_thread_local :
    List (ℕ × FiberDataManager) → ℕ → List (ℕ × FiberDataManager) × FiberDataManager
get_fiber_data_manager_by_thread_local cache thread = elim (find thread cache) [
  | some m ↦ (cache, m)
  | none ↦ let m = new_fiber_data_manager fiber_max_queue_size in (insert thread m cache, m)
]

-- Later calls of a thread give the same manager, and leave those of the other threads.
get_fiber_data_manager_by_thread_local_again :
    (cache : List (ℕ × FiberDataManager)) (thread other : ℕ)
    → let (cache', m) = get_fiber_data_manager_by_thread_local cache thread in
      (get_fiber_data_manager_by_thread_local cache' thread ≡ (cache', m))
      × (other ≢ thread → find other cache' ≡ find other cache)
unfolding get_fiber_data_manager_by_thread_local
get_fiber_data_manager_by_thread_local_again cache thread other =
    elim (Option-cases (find thread cache)) [
      | inl e ↦ (
        ground (
          arith,
          e,
          find-insert thread thread (new_fiber_data_manager fiber_max_queue_size) cache e,
        ),
        λ ne. ground (
          arith,
          e,
          ne,
          find-insert thread other (new_fiber_data_manager fiber_max_queue_size) cache e,
        ),
      )
      | inr (m, e) ↦ (ground (arith, e), λ ne. ground (arith, e))
    ]
