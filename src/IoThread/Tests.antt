-- ===== src/IoThread/Tests.antt =====
-- A small thread, and the theorems at it.
use text.Mathlib.TextEquality.{eq_iff}
use service_framework.Prelude.{
  ℕ, String, refl, none, some, [], arith, All, find, contains, insert, modify, member, set_erase,
  ◌≡◌, ◌∷◌, ◌==◌, if◌then◌else◌, nat_eq, string_eq,
}
use service_framework.IoThread.{
  IoThread, new_io_thread, on_new_connection, on_connection_closed, find_pipeline, find_pipelines,
  dispatch_io_buf_by_server, on_server_register, add_to_service,
}
use service_framework.IoThread.Services.{IsIndexed, on_new_connection-IsIndexed, of_service}
use service_framework.Conn.{IoBuf, claim, advance, candidate}
use service_framework.IoThread.History.{Reach, made, opens, registers, Reach-serves}

abbrev service_of : ℕ → String
service_of p = if p == 7 then "chat" else "echo"

-- One chat connection is open.
abbrev one_open : IoThread
one_open = record (new_io_thread 0 (some 40)) {
  current_conn_id = 1;
  pipelines = (1, 7) ∷ [];
  service_pipelines = ("chat", 1 ∷ []) ∷ [];
  server_conns = record { server_name = "chat"; server_number = 1; pipeline = some 7 } ∷ [];
}

one_open-IsIndexed : IsIndexed service_of one_open
unfolding find_pipelines find_pipeline member find
one_open-IsIndexed = record {
  exact = λ s k. ground (arith, eq_iff "chat" s);
  counter_range = omega arith;
  distinct = (refl, tt);
}

on_new_connection-IsIndexed_example :
    (t' : IoThread) × (id : ℕ) × (on_new_connection one_open 8 "echo" ≡ some (t', id))
    × (find_pipeline one_open id ≡ none)
    × (find_pipeline t' id ≡ some 8)
    × IsIndexed service_of t'
on_new_connection-IsIndexed_example =
    on_new_connection-IsIndexed service_of one_open 8 one_open-IsIndexed (omega arith)

abbrev chat_opened : IoThread
chat_opened = record (new_io_thread 0 (some 40)) {
  current_conn_id = 1;
  pipelines = (1, 7) ∷ [];
  service_pipelines = ("chat", 1 ∷ []) ∷ [];
}

chat_opens : on_new_connection (new_io_thread 0 (some 40)) 7 "chat" ≡ some (chat_opened, 1)
unfolding on_new_connection claim find insert contains add_to_service advance candidate
chat_opens = refl

chat_registers : on_server_register chat_opened (some 7) "chat" 1 ≡ one_open
unfolding on_server_register
chat_registers = refl

one_open-Reach : Reach service_of one_open
unfolding find_pipeline find
one_open-Reach = rw⁻¹ chat_registers (
    registers chat_opened 1 7 "chat" 1 refl (opens _ chat_opened 7 1 chat_opens (made 0 (some 40))))

Reach-serves_example :
    ((s : String) (k : ℕ)
      → member k (find_pipelines one_open s) ≡ of_service service_of s (find_pipeline one_open k))
    × ((name : String) (number : ℕ) (buf : IoBuf)
        → All
            (λ w. (id : ℕ) × (find_pipeline one_open id ≡ some w.0))
            (dispatch_io_buf_by_server one_open name number buf).1)
Reach-serves_example = Reach-serves service_of one_open one_open-Reach

closed : (on_connection_closed one_open 1 7 "chat").0.service_pipelines ≡ ("chat", []) ∷ []
unfolding on_connection_closed modify set_erase
closed = refl
