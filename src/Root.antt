-- ===== src/Root.antt =====
-- `Root` of baselib/net/root.{h,cc} with its base `BaseMain` of baselib/base/base_main.{h,cc}: what a
-- program of the framework does from its configuration to the start of its services. The logger of
-- `BaseMain` is an argument, and files, signals, the timer and the event loop are left out.
pub mod Loading
pub mod Timer
pub mod Factories
pub mod Running
pub mod Boot
pub mod DoMain
mod Tests
use service_framework.Prelude.{
  ℕ, String, Bool, Option, none, some, List, [], find, ◌∷◌, ◌==◌, if◌then◌else◌, nat_eq, string_eq,
}
use service_framework.Json.{Json}
use service_framework.Stats.{Stats, init_stat}
use service_framework.Config.{ServiceConfig, to_service_configs, set_system_conf}
use service_framework.ThreadGroup
use service_framework.ThreadGroup.{ThreadGroupOption, ThreadType, set_conf}
use service_framework.Service.{
  ServiceManager, set_thread_groups, setup_service, register_service_factory,
}
use service_framework.ConfigManager
use service_framework.ConfigManager.{ConfigManager, Configurable, new_config_manager, register}

-- The members that a configuration sets, with the state `L` of the logger.
pub record Root (L : Type 0) : Type 0 where
  pub logger : L
  pub services_config : List ServiceConfig
  pub system_config : ℕ
  pub thread_group_options : List ThreadGroupOption
  pub io_thread_pool_size : ℕ

abbrev pub new_root : {L : Type 0} → L → Root L
new_root logger = record {
  logger = logger;
  services_config = [];
  system_config = 0;
  thread_group_options = [];
  io_thread_pool_size = 0;
}

module _ {J L : Type 0} (json : Json J) (hardware : ℕ) (set_logger : J → L → Option L) where
  abbrev pub logger_item : Configurable J (Root L)
  logger_item name conf r = elim (set_logger conf r.logger) [
    | none ↦ none
    | some l ↦ some (record r { logger = l })
  ]

  abbrev pub services_item : Configurable J (Root L)
  services_item name conf r = elim (to_service_configs json conf) [
    | none ↦ none
    | some cs ↦ some (record r { services_config = cs })
  ]

  abbrev pub system_item : Configurable J (Root L)
  system_item name conf r = elim (set_system_conf json conf r.system_config) [
    | none ↦ none
    | some n ↦ some (record r { system_config = n })
  ]

  abbrev pub thread_group_item : Configurable J (Root L)
  thread_group_item name conf r = elim (set_conf json hardware conf r.thread_group_options) [
    | none ↦ none
    | some os ↦ some (record r { thread_group_options = os })
  ]

  -- The registrations of the constructors.
  unfoldable pub root_config_manager : ConfigManager J (Root L)
  root_config_manager =
      register
        (register
          (register (register (new_config_manager J (Root L)) "logger" logger_item) "services"
            services_item)
          "system" system_item)
        "thread_group" thread_group_item

  module _ (parse : String → Option J) (read_file : String → Option String) where
    -- `LoadConfig`
    unfoldable pub load_config : String → Root L → Option (Bool × Root L)
    load_config config_path r =
        elim (ConfigManager.initialize json.find parse read_file root_config_manager config_path
          r) [
            | none ↦ none
            | some (m, rv, s) ↦
                some (rv, if rv then record s { io_thread_pool_size = s.system_config } else s)
          ]

-- `GetIOThreadPoolSize`
unfoldable pub get_io_thread_pool_size : {L : Type 0} → ℕ → Root L → Root L × ℕ
get_io_thread_pool_size hardware r =
    if r.io_thread_pool_size == 0
    then (
      record r { io_thread_pool_size = ThreadGroup.get_io_thread_size hardware },
      ThreadGroup.get_io_thread_size hardware,
    )
    else (r, r.io_thread_pool_size)

-- The loop over the services that the program registered: their names and types.
abbrev pub register_all : ServiceManager → List (String × String) → ServiceManager
register_all m [] = m
register_all m ((name, type) ∷ services) =
    register_all (register_service_factory m name type) services

-- `InitFiberStats`
unfoldable pub init_fiber_stats : Stats → Stats
init_fiber_stats g =
    init_stat
      (init_stat
        (init_stat (init_stat (init_stat (init_stat g 0 "f_add_task") 1 "f_rpc") 2 "f_db_tps") 3
          "f_db_qps")
        4 "f_reids")
      5 "f_http"

module _ {L : Type 0} (started : ThreadType → ℕ → List ℕ) where
  -- `Initialize`, with the services that the program registered.
  unfoldable pub initialize :
      Root L → List (String × String) → ServiceManager → Stats → ServiceManager × Stats
  initialize r services m g = (
    register_all
        (setup_service
          (set_thread_groups m (ThreadGroup.initialize started r.thread_group_options).0)
          r.services_config)
        services,
    init_fiber_stats g,
  )
