-- ===== src/Service/Tests.antt =====
-- A small set of services, and the theorems at it.
use service_framework.Prelude.{
  ℕ, String, refl, inl, inr, Bool, true, false, some, List, [], map, arith, get_elem?, ◌≡◌, ◌∷◌,
  ◌==◌, string_eq, nat_eq, string_eq,
}
use service_framework.Conn.{
  ConnManager, new_conn_manager, on_new_connection, send_io_buf_by_conn_id,
}
use service_framework.Conn.Table.{IsTable}
use service_framework.Config.{ServiceConfig}
use service_framework.ThreadGroup.{
  ThreadType, conn_accept, ThreadGroupOption, ThreadGroupListManager, new_manager, initialize,
  make_groups, make_thread_group, make_pool, threads_started, thread_started, has_event_base,
}
use service_framework.ThreadGroup.Numbers.{initialize-IsNumbered}
use service_framework.Service.{
  ServiceManager, ServiceFactory, creates, is_server, start, returned, send_io_buf,
  send_io_buf_by_name, by_broad_cast,
}
use service_framework.Service.Entries.{reached, created, Fits}
use service_framework.Service.Groups.{broad_cast-connected, connected_places}
use service_framework.Service.Delivery.{send_io_buf-reaches}

abbrev config : String → String → ℕ → ServiceConfig
config name type port = record {
  service_name = name;
  service_type = type;
  hosts = "127.0.0.1";
  port = port;
  max_conn_cnt = 1;
}

abbrev clients_and_server : List ServiceConfig
clients_and_server =
    config "status" "tcp_client" 1
    ∷ config "access" "tcp_server" 2
    ∷ config "status" "tcp_client" 3
    ∷ []

abbrev factories_of_both : List ServiceFactory
factories_of_both =
    record { factory_type = "tcp_client"; factory_name = "status" }
    ∷ record { factory_type = "tcp_server"; factory_name = "access" }
    ∷ []

abbrev manager : ThreadGroupListManager → ServiceManager
manager groups = record {
  services = [];
  thread_groups = groups;
  service_configs = clients_and_server;
  factories = factories_of_both;
  running = [];
}

all_created : created factories_of_both clients_and_server ≡ clients_and_server
unfolding creates
all_created = refl

they_fit : Fits [] clients_and_server
unfolding is_server
they_fit = (inl refl, (inr refl, ((refl, refl), tt)))

-- The second of the services cannot bind.
abbrev access_throws : ServiceConfig → Bool
access_throws c = string_eq.beq c.service_name "access"

abbrev status_and_access : List ServiceConfig
status_and_access = config "status" "tcp_client" 1 ∷ config "access" "tcp_server" 2 ∷ []

it_throws : reached access_throws clients_and_server ≡ status_and_access
it_throws = refl

abbrev one_accept : ThreadType → ℕ → List ℕ
one_accept type size = 40 ∷ []

abbrev accept_option : List ThreadGroupOption
accept_option = record { thread_type = conn_accept; thread_size = 1 } ∷ []

abbrev numbered_groups : ThreadGroupListManager
numbered_groups = (initialize one_accept accept_option).0

told_first : get_elem? numbered_groups.conn_thread_ids 0 ≡ some (40, 0)
unfolding initialize make_groups make_thread_group make_pool threads_started thread_started
    has_event_base
told_first = refl

new-IsTable : IsTable new_conn_manager
new-IsTable = record { thread_range = omega arith; counter_range = omega arith; distinct = tt }

send_io_buf-reaches_example :
    (c' : ConnManager) × (id : ℕ) × (on_new_connection new_conn_manager 9 ≡ some (c', id))
    × (send_io_buf (manager numbered_groups) id (1 ∷ []) ≡ some (true, (40, id, 1 ∷ []) ∷ []))
    × (send_io_buf_by_conn_id c' id (1 ∷ []) ≡ (true, (9, 1 ∷ []) ∷ []))
send_io_buf-reaches_example =
    send_io_buf-reaches (manager numbered_groups) 0 40 9 new_conn_manager (1 ∷ [])
      (initialize-IsNumbered one_accept accept_option) told_first new-IsTable (omega arith)

second_only : ℕ → Bool
second_only k = k == 1

broad_cast-connected_example :
    (m' : ServiceManager) × (start (λ c. false) (manager new_manager) ≡ returned m')
    × (send_io_buf_by_name m' second_only (λ n. 0) "status" (7 ∷ []) by_broad_cast
        ≡ (true, map (λ k. (k, 7 ∷ [])) (connected_places second_only 2)))
broad_cast-connected_example =
    broad_cast-connected (λ c. false) (manager new_manager) second_only (λ n. 0) "status"
      (config "status" "tcp_client" 1) (config "status" "tcp_client" 3 ∷ []) (7 ∷ []) refl
      (rw all_created refl) (rw all_created they_fit) (rw all_created refl) refl

abbrev twice_access : ServiceManager
twice_access = record (manager new_manager) {
  service_configs = config "access" "tcp_server" 2 ∷ config "access" "tcp_server" 3 ∷ [];
}
