-- ===== src/Conn/Tests.antt =====
-- The theorems about `ThreadLocalConnManager` at concrete managers.
use service_framework.Prelude.{
  refl, true, some, [], arith, find, contains, insert, ◌≡◌, ◌∷◌, nat_eq, string_eq,
}
use service_framework.Ids.{make_id, low_part}
use service_framework.Conn.{
  ConnManager, new_conn_manager, set_thread_id, candidate, advance, claim, on_new_connection,
  send_io_buf_by_conn_id,
}
use service_framework.Conn.Table.{IsTable}
use service_framework.Conn.History.{opened, closed, run, send_after_run}

abbrev busy : ConnManager
busy = record { thread_id = 3; current_conn_id = 5; pipelines = (6, 77) ∷ (4, 70) ∷ [] }

busy-IsTable : IsTable busy
unfolding find
busy-IsTable = record {
  thread_range = omega arith;
  counter_range = omega arith;
  distinct = (refl, (refl, tt));
}

-- 6 is taken, so the loop goes one round further.
opens_seven :
    on_new_connection busy 80
    ≡ some (
      record { thread_id = 3; current_conn_id = 7; pipelines = (6, 77) ∷ (4, 70) ∷ (7, 80) ∷ [] },
      12884901895,
    )
unfolding on_new_connection claim candidate advance contains insert make_id
opens_seven = refl

first_id :
    on_new_connection (set_thread_id new_conn_manager 2) 9
    ≡ some (record { thread_id = 2; current_conn_id = 1; pipelines = (1, 9) ∷ [] }, 8589934593)
unfolding on_new_connection claim candidate advance contains insert make_id set_thread_id
first_id = refl

send_after_run_example :
    (c₂ : ConnManager) × (run
        (record {
          thread_id = 3;
          current_conn_id = 7;
          pipelines = (6, 77) ∷ (4, 70) ∷ (7, 80) ∷ [];
        })
        (opened 81 ∷ closed 12884901894 ∷ [])
      ≡ some c₂)
    × (send_io_buf_by_conn_id c₂ 12884901895 (1 ∷ []) ≡ (true, (80, 1 ∷ []) ∷ []))
unfolding low_part
send_after_run_example =
    send_after_run busy 80 _ 12884901895 (opened 81 ∷ closed 12884901894 ∷ []) (1 ∷ []) busy-IsTable
      (omega arith) opens_seven (omega arith, tt)
