-- ===== src/IoPool/Tests.antt =====
-- A pool of three threads, and the theorems at it.
use service_framework.Prelude.{ℕ, refl, some, List, [], arith, length, All, ◌<◌, ◌≡◌, ◌∷◌}
use service_framework.IoThread.{IoThread, new_io_thread}
use service_framework.IoPool.{
  IoPool, Task, Posted, on_new_connection, dispatch_io_buf_by_conn_id, dispatch_io_buf_by_server,
  run_task, drain,
}
use service_framework.IoPool.Delivery.{HasRoom, on_new_connection-delivers}
use service_framework.IoPool.Servers.{OnBase, first_server, dispatch_io_buf_by_server-first}

abbrev on_third : IoThread
on_third = record (new_io_thread 2 (some 42)) {
  current_conn_id = 5;
  pipelines = (5, 70) ∷ [];
  server_conns = record { server_name = "login"; server_number = 1; pipeline = some 70 } ∷ [];
}

abbrev three : IoPool
three = record {
  thread_conn_managers = new_io_thread 0 (some 40) ∷ new_io_thread 1 (some 41) ∷ on_third ∷ [];
  current_thread_id = 3;
}

three-HasRoom : All HasRoom three.thread_conn_managers
three-HasRoom =
    let room : (t : IoThread) → t.current_conn_id < 9 → length t.pipelines < 9 → HasRoom t =
      λ t c r. record { counter_range = omega arith; room = omega arith } in
    (
      room (new_io_thread 0 (some 40)) (omega arith) (omega arith),
      (
        room (new_io_thread 1 (some 41)) (omega arith) (omega arith),
        (room on_third (omega arith) (omega arith), tt),
      ),
    )

three-OnBase : All OnBase three.thread_conn_managers
three-OnBase = ((40, refl), ((41, refl), ((42, refl), tt)))

on_new_connection-delivers_example :
    (pool' : IoPool) × (id : ℕ) × (task : Task) × (on_new_connection three (some 41) 80 "chat"
      ≡ some (pool', id))
    × (dispatch_io_buf_by_conn_id pool' id (1 ∷ []) ≡ some ((41, task) ∷ []))
    × (run_task pool'.thread_conn_managers task ≡ ((80, 1 ∷ []) ∷ [], []))
on_new_connection-delivers_example =
    on_new_connection-delivers three 41 80 "chat" 1 (new_io_thread 1 (some 41)) (1 ∷ [])
      (omega arith) three-HasRoom refl refl

dispatch_io_buf_by_server-first_example :
    (queue : List Posted) × (dispatch_io_buf_by_server three "login" 1 (1 ∷ []) ≡ some queue)
    × (drain 3 three.thread_conn_managers queue
        ≡ some (first_server three.thread_conn_managers "login" 1 (1 ∷ [])))
dispatch_io_buf_by_server-first_example =
    dispatch_io_buf_by_server-first three "login" 1 (1 ∷ []) (λ h. ground (arith, h)) three-OnBase
