-- ===== src/Router.antt =====
-- `ServiceRouterManager` of baselib/net/service_router_manager.{h,cc}: the services of a configuration
-- on one pool of IO threads. An instance of a service is its configuration; `none` is `LOG(FATAL)`,
-- which ends the program (`fatal` for `Start`), or an index past the threads of the pool.
pub mod Started
mod Tests
use service_framework.Prelude.{
  ℕ, String, Bool, true, false, Option, none, some, List, [], contains, insert, ◌∷◌, ◌++◌,
  string_eq, if◌then◌else◌, nat_eq, string_eq,
}
use service_framework.Conn.{IoBuf}
use service_framework.Config.{ServiceConfig}
use service_framework.Service.{ServiceFactory, creates, Ending, returned, threw, fatal}
use service_framework.IoPool
use service_framework.IoPool.{IoPool, Posted}

-- `running` and `stopped` are the instances that `Start` and `Stop` were called on, in their order.
pub record ServiceRouterManager : Type 0 where
  pub services : List (String × ServiceConfig)
  pub conn_pool : IoPool
  pub factories : List ServiceFactory
  pub service_configs : List ServiceConfig
  pub running : List ServiceConfig
  pub stopped : List ServiceConfig

-- `ServiceRouterManager(conn_pool)`
abbrev pub new_service_router_manager : IoPool → ServiceRouterManager
new_service_router_manager conn_pool = record {
  services = [];
  conn_pool = conn_pool;
  factories =
      record { factory_type = "tcp_server"; factory_name = "tcp_server" }
      ∷ record { factory_type = "tcp_client"; factory_name = "tcp_client" }
      ∷ [];
  service_configs = [];
  running = [];
  stopped = [];
}

-- `RegisterServiceFactory`
abbrev pub register_service_factory : ServiceRouterManager → ServiceFactory → ServiceRouterManager
register_service_factory m factory = record m { factories = m.factories ++ factory ∷ [] }

abbrev pub initialize : ServiceRouterManager → List ServiceConfig → ServiceRouterManager
initialize m configs = record m { service_configs = configs }

-- The branches of the servers: the answer, and the services.
unfoldable pub register_router_server :
    List (String × ServiceConfig) → ServiceConfig → Option (Bool × List (String × ServiceConfig))
register_router_server services c =
    if contains c.service_name services then none else some (true, insert c.service_name c services)

-- `RegisterServiceBase`: its answer, and the services.
unfoldable pub register_service_base :
    List (String × ServiceConfig) → ServiceConfig → Option (Bool × List (String × ServiceConfig))
register_service_base services c =
    if string_eq.beq c.service_type "tcp_client"
    then some (false, services)
    else if string_eq.beq c.service_type "tcp_server"
    then register_router_server services c
    else if string_eq.beq c.service_type "http_server"
    then register_router_server services c
    else none

-- The loop of `Start`; `throws` tells which services throw from their `Start`.
unfoldable pub start_services :
    (ServiceConfig → Bool) → ServiceRouterManager → List ServiceConfig → Ending ServiceRouterManager
start_services throws m [] = returned m
start_services throws m (c ∷ cs) = elim (creates m.factories c) [
  | false ↦ start_services throws m cs
  | true ↦ elim (register_service_base m.services c) [
    | none ↦ fatal
    | some (false, services) ↦ start_services throws (record m { services = services }) cs
    | some (true, services) ↦ elim (throws c) [
      | true ↦ threw (record m { services = services; running = m.running ++ c ∷ [] })
      | false ↦
          start_services throws (record m { services = services; running = m.running ++ c ∷ [] }) cs
    ]
  ]
]

unfoldable pub start : (ServiceConfig → Bool) → ServiceRouterManager → Ending ServiceRouterManager
start throws m = start_services throws m m.service_configs

-- The instances of the map, which has no order of its own in the source.
abbrev pub instances : List (String × ServiceConfig) → List ServiceConfig
instances [] = []
instances ((name, c) ∷ services) = c ∷ instances services

-- `Stop` stops what is registered, and keeps it.
unfoldable pub stop : ServiceRouterManager → ServiceRouterManager
stop m = record m { stopped = m.stopped ++ instances m.services }

-- The connections and the data go to the pool.
unfoldable pub on_new_connection :
    ServiceRouterManager → Option ℕ → ℕ → String → Option (ServiceRouterManager × ℕ)
on_new_connection m event_base pipeline service =
    elim (IoPool.on_new_connection m.conn_pool event_base pipeline service) [
      | none ↦ none
      | some (pool, id) ↦ some (record m { conn_pool = pool }, id)
    ]

unfoldable pub on_connection_closed :
    ServiceRouterManager → ℕ → ℕ → String → Option (ServiceRouterManager × Bool)
on_connection_closed m conn_id pipeline service =
    elim (IoPool.on_connection_closed m.conn_pool conn_id pipeline service) [
      | none ↦ none
      | some (pool, found) ↦ some (record m { conn_pool = pool }, found)
    ]

unfoldable pub on_server_register :
    ServiceRouterManager → Option ℕ → Option ℕ → String → ℕ → ServiceRouterManager
on_server_register m event_base pipeline name number = record m {
  conn_pool = IoPool.on_server_register m.conn_pool event_base pipeline name number;
}

-- `DispatchIOBuf(conn_id, data)` and `DispatchIOBuf(server_name, server_number, data)`: the closures
-- that they post.
unfoldable pub dispatch_io_buf : ServiceRouterManager → ℕ → IoBuf → Option (List Posted)
dispatch_io_buf m conn_id buf = IoPool.dispatch_io_buf_by_conn_id m.conn_pool conn_id buf

unfoldable pub dispatch_io_buf_to_server :
    ServiceRouterManager → String → ℕ → IoBuf → Option (List Posted)
dispatch_io_buf_to_server m name number buf =
    IoPool.dispatch_io_buf_by_server m.conn_pool name number buf
