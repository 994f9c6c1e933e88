-- ===== src/IotHub.antt =====
-- The program `IotHubServer` of server/IotHubServer/IotHubServer.{h,cc} with its configuration,
-- server/IotHubServer/IotHubUtil.{h,cc}: a `Root` with one more section and a worker number.
pub mod Chosen
pub mod Main
pub mod Ids
mod Tests
use service_framework.Prelude.{
  ℕ, String, Bool, true, Option, none, some, List, [], find, ◌%◌, ◌^◌, ◌∷◌, ◌>>=◌, if◌then◌else◌,
  nat_eq, string_eq,
}
use service_framework.Ids.{u32_mod}
use service_framework.Json.{Json, ℤ, pos, negsuc}
use service_framework.Config.{ServiceConfig, to_uint32}
use service_framework.ConfigManager
use service_framework.ConfigManager.{ConfigManager, Configurable, new_config_manager, register}
use service_framework.Snowflake
use service_framework.Snowflake.{Globals, init_snowflake_worker_id}
use service_framework.BaseMain.{CommandLine, Program}
use service_framework.Root.{Root, logger_item, services_item, system_item, thread_group_item}
use service_framework.Root.Running.{System, Process, root_initialize, run, destroy}

-- `server_port` is an `int`.
pub record IotHubConfig : Type 0 where
  pub server_number : ℕ
  pub server_ips : String
  pub server_port : ℤ

-- The conversion of an `int` to `uint16_t`.
unfoldable pub to_uint16 : ℤ → ℕ
unfolding to_uint32
to_uint16 n = to_uint32 n % 2 ^ 16

module _ {J : Type 0} (json : Json J) where
  abbrev pub read_number : J → ℕ → Option ℕ
  read_number conf old = elim (json.find conf "server_number") [
    | none ↦ some old
    | some v ↦ elim (json.get_int v) [ none ↦ none | some n ↦ some (to_uint16 n) ]
  ]

  -- `SetConf`
  unfoldable pub set_conf : J → IotHubConfig → Option IotHubConfig
  set_conf conf c = do
    server_number ← read_number conf c.server_number
    server_ips ← (elim (json.find conf "server_ips") [
      | none ↦ some c.server_ips
      | some v ↦ json.get_string v
    ])
    server_port ← (elim (json.find conf "server_port") [
      | none ↦ some c.server_port
      | some v ↦ json.get_int v
    ])
    some (record {
      server_number = server_number;
      server_ips = server_ips;
      server_port = server_port;
    })

-- `GetServerNumber`, of the configuration's one instance.
abbrev pub get_server_number : IotHubConfig → ℕ
get_server_number c = c.server_number

-- The process with its configuration and the globals of the id workers.
pub record Hub (L : Type 0) : Type 0 where
  pub process : Process L
  pub config : IotHubConfig
  pub globals : Globals

-- The constructor's `RegisterService`.
abbrev pub hub_services : List (String × String)
hub_services = ("iot_hub_server", "tcp_server") ∷ []

module _ {J L : Type 0} (sys : System J L) where
  -- A section of `Root` as one of the program.
  abbrev pub on_root : Configurable J (Root L) → Configurable J (Hub L)
  on_root item name conf h = elim (item name conf h.process.root) [
    | none ↦ none
    | some r ↦ some (record h { process = record h.process { root = r } })
  ]

  abbrev pub hub_item : Configurable J (Hub L)
  hub_item name conf h = elim (set_conf sys.json conf h.config) [
    | none ↦ none
    | some c ↦ some (record h { config = c })
  ]

  -- The registrations of the constructors, those of the bases first.
  unfoldable pub hub_config_manager : ConfigManager J (Hub L)
  hub_config_manager =
      register
        (register
          (register
            (register
              (register (new_config_manager J (Hub L)) "logger"
                (on_root (logger_item sys.json sys.hardware sys.set_logger)))
              "services" (on_root (services_item sys.json sys.hardware sys.set_logger)))
            "system" (on_root (system_item sys.json sys.hardware sys.set_logger)))
          "thread_group" (on_root (thread_group_item sys.json sys.hardware sys.set_logger)))
        "iot_hub_server" hub_item

  -- `LoadConfig` of `Root`, with what the program registered.
  unfoldable pub hub_load_config : String → Hub L → Option (Bool × Hub L)
  hub_load_config path h =
      elim (ConfigManager.initialize sys.json.find sys.parse sys.read_file hub_config_manager path
        h) [
          | none ↦ none
          | some (m, rv, s) ↦
              let r = s.process.root in
              some (
                rv,
                if rv
                    then record s {
                      process = record s.process {
                        root = record r { io_thread_pool_size = r.system_config };
                      };
                    }
                    else s,
              )
        ]

  module _ (line : CommandLine) where
    -- `Initialize`: that of `Root`, and the number of the server for the ids.
    unfoldable pub hub_initialize : Hub L → Option (Bool × Hub L)
    hub_initialize h = elim (root_initialize sys line h.process) [
      | none ↦ none
      | some (rv, p) ↦ some (
        true,
        record h {
          process = p;
          globals = init_snowflake_worker_id h.globals (get_server_number h.config) 1;
        },
      )
    ]

    -- A function of `Root` that the program does not override.
    abbrev pub inherited : (Process L → Option (Bool × Process L)) → Hub L → Option (Bool × Hub L)
    inherited f h = elim (f h.process) [
      | none ↦ none
      | some (rv, p) ↦ some (rv, record h { process = p })
    ]

    abbrev pub hub_program : Program (Hub L)
    hub_program = record {
      load_config = hub_load_config;
      initialize = hub_initialize;
      run = inherited (run sys line);
      destroy = inherited (destroy sys line);
    }
