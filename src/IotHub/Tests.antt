-- ===== src/IotHub/Tests.antt =====
-- A configuration file with one server, and the theorems at it.
use service_framework.Prelude.{
  ℕ, String, refl, inr, true, false, Option, none, some, List, [], contains, insert, ◌%◌, ◌≡◌, ◌↔◌,
  ◌∷◌, ◌++◌, string_eq, if◌then◌else◌, nat_eq, string_eq,
}
use service_framework.Json.{Json, ℤ, pos}
use service_framework.Config.{ServiceConfig}
use service_framework.Config
use service_framework.Stats.{new_stats}
use service_framework.ThreadGroup.{
  ThreadType, ThreadGroupOption, conn_accept, new_manager, get_io_thread_pool_executor,
  get_thread_group_by_thread_type, has_event_base, make_groups, make_thread_group, make_pool,
  threads_started,
}
use service_framework.ThreadGroup
use service_framework.Service.{ServiceManager, lookup, is_server}
use service_framework.Service.{
  single, creates, set_thread_groups, setup_service, register_service_factory, default_factory,
  threads_of, register_service_base, register_server,
}
use service_framework.Service.Starting.{Throws}
use service_framework.Service.{threw, start, start_all}
use service_framework.Service.Entries.{named, Fits, service_of}
use service_framework.BaseMain.{CommandLine, config_file, do_main}
use service_framework.Root.{Root, new_root, initialize}
use service_framework.Root.Boot.{Loads, initialized, chosen}
use service_framework.Root.DoMain.{do_main-Throws}
use service_framework.Root.Running.{System, root_program}
use service_framework.IotHub.{
  IotHubConfig, Hub, set_conf, hub_program, hub_services, to_uint16, Process,
}
use service_framework.IotHub.Chosen.{hub_chosen}
use service_framework.IotHub.Main.{HubLoads, hub_main-hub_chosen}
use service_framework.IotHub.Ids.{server_id, server_ids_collide_iff}

data Value : Type 0 where
  document : Value
  hub : Value
  groups : Value
  services : Value
  service : Value
  number : ℕ → Value
  text : String → Value

find_value : Value → String → Option Value
find_value document key =
    if string_eq.beq key "iot_hub_server"
    then some hub
    else if string_eq.beq key "thread_group"
    then some groups
    else if string_eq.beq key "services"
    then some services
    else none
find_value hub key = if string_eq.beq key "server_number" then some (number 33) else none
find_value groups key = if string_eq.beq key "accept" then some (number 2) else none
find_value services key = none
find_value service key =
    if string_eq.beq key "service_name"
    then some (text "iot_hub_server")
    else if string_eq.beq key "service_type"
    then some (text "tcp_server")
    else if string_eq.beq key "port"
    then some (number 8000)
    else none
find_value (number n) key = none
find_value (text s) key = none

int_of : Value → Option ℤ
int_of (number n) = some (pos n)
int_of _ = none

string_of : Value → Option String
string_of (text s) = some s
string_of _ = none

items_of : Value → List Value
items_of services = service ∷ []
items_of _ = []

abbrev values : Json Value
values = record { find = find_value; get_int = int_of; get_string = string_of; items = items_of }

abbrev system : System Value ℕ
system = record {
  json = values;
  hardware = 8;
  set_logger = λ v level. some level;
  parse = λ s. some document;
  read_file = λ path. some "{}";
  can_open = λ name. true;
  started = λ type size. [];
  throws = λ c. false;
  decimal = λ n. "42";
  pid = 42;
  lates = 0 ∷ 5 ∷ [];
}

abbrev line : CommandLine
line = record { json = ""; pid_path = ""; program_name = "iot_hub" }

abbrev empty_manager : ServiceManager
empty_manager = record {
  services = [];
  thread_groups = new_manager;
  service_configs = [];
  factories = [];
  running = [];
}

abbrev first_hub : Hub ℕ
first_hub = record {
  process = record {
    root = new_root 0;
    services = hub_services;
    manager = empty_manager;
    fiber_stats = new_stats "fiber" 6;
    files = [];
    main_loop = record { now = 0; timers = []; on_timer = [] };
    stopped = [];
  };
  config = record { server_number = 0; server_ips = ""; server_port = pos 443 };
  globals = record { worker_id = 1; data_center_id = 1; thread_id = 0 };
}

abbrev hub_service : ServiceConfig
hub_service = record {
  service_name = "iot_hub_server";
  service_type = "tcp_server";
  hosts = "";
  port = 8000;
  max_conn_cnt = 0;
}

abbrev read_root : Root ℕ
read_root = record (new_root 0) {
  services_config = hub_service ∷ [];
  thread_group_options = record { thread_type = conn_accept; thread_size = 2 } ∷ [];
}

abbrev read_config : IotHubConfig
read_config = record { server_number = 33; server_ips = ""; server_port = pos 443 }

loads : HubLoads system line first_hub read_root read_config
unfolding config_file find_value int_of string_of items_of set_conf to_uint16 Config.to_uint32
    Config.set_conf Config.read_string Config.read_int Config.read_configs Config.to_service_configs
    Config.set_system_conf ThreadGroup.set_conf ThreadGroup.add_option
loads = ("{}", document, refl, refl, refl, refl)

starts_one : hub_chosen read_root.thread_group_options read_root.services_config ≡ hub_service ∷ []
starts_one = refl

fits : Fits [] (hub_service ∷ [])
unfolding is_server
fits = (inr refl, tt)

hub_main-hub_chosen_example :
    (q : Hub ℕ) × (do_main (hub_program system line) line first_hub ≡ some (0, q))
    × (q.process.manager.running ≡ [] ++ hub_service ∷ [])
    × ((s : String) → lookup q.process.manager s ≡ service_of (named s (hub_service ∷ [])))
    × (q.globals.worker_id ≡ 33)
hub_main-hub_chosen_example =
    hub_main-hub_chosen system line first_hub read_root read_config loads refl refl refl fits
      (λ c. refl) (λ name. refl)

abbrev old_config : IotHubConfig
old_config = record { server_number = 0; server_ips = ""; server_port = pos 443 }

hub_read : set_conf values hub old_config ≡ some read_config
unfolding set_conf find_value int_of to_uint16 Config.to_uint32
hub_read = refl

server_ids_collide_iff_example :
    server_id read_config 1 0 7 0 ≡ server_id read_config 33 0 7 0
    ↔ (◌≡◌ {A = ℕ} (33 % 32) (33 % 32)) × (◌≡◌ {A = ℕ} (1 % 32) (33 % 32))
server_ids_collide_iff_example =
    server_ids_collide_iff values hub hub (number 33) (number 33) 33 33 old_config old_config
      read_config read_config 1 33 0 0 7 0 (unfold find_value in refl) (unfold find_value in refl)
      (unfold int_of in refl) (unfold int_of in refl) hub_read hub_read

-- The same machine where the port is in use.
abbrev busy : System Value ℕ
busy = record system { throws = λ c. true }

abbrev first : Process ℕ
first = first_hub.process

busy-Loads : Loads busy line first read_root
unfolding config_file find_value int_of string_of items_of Config.to_uint32 Config.set_conf
    Config.read_string Config.read_int Config.read_configs Config.to_service_configs
    Config.set_system_conf ThreadGroup.set_conf ThreadGroup.add_option
busy-Loads = ("{}", document, refl, refl, refl)

abbrev stuck : ServiceManager
stuck = record (initialized busy line read_root first).manager {
  services = ("iot_hub_server", single hub_service) ∷ [];
  running = hub_service ∷ [];
}

it_throws : start busy.throws (initialized busy line read_root first).manager ≡ threw stuck
unfolding start start_all creates initialize set_thread_groups setup_service
    register_service_factory default_factory threads_of register_service_base register_server
    is_server get_io_thread_pool_executor get_thread_group_by_thread_type has_event_base
    ThreadGroup.initialize make_groups make_thread_group make_pool threads_started insert contains
it_throws = refl

do_main-Throws_example :
    (do_main (root_program busy line) line first
      ≡ some (0, record (initialized busy line read_root first) { manager = stuck }))
    × Throws busy.throws
        (initialized busy line read_root first).manager
        (chosen busy line read_root first)
        stuck
do_main-Throws_example = do_main-Throws busy line read_root first stuck busy-Loads refl it_throws
