-- ===== src/Service.antt =====
-- `ServiceManager` of baselib/net/service_manager.{h,cc} with the factories of
-- baselib/net/base/service_factory_manager.cc. An instance of a service is its configuration; a group
-- of TCP clients has the configuration that it was made with and its clients. `none` is `LOG(FATAL)`,
-- which ends the program, or an index past a vector.
pub mod Entries
pub mod Registry
pub mod Delivery
pub mod Groups
pub mod Online
pub mod Refused
pub mod Starting
mod Tests
use service_framework.Prelude.{
  ℕ, String, Bool, true, false, Option, none, some, List, [], length, find, contains, insert,
  modify, ◌+◌, ◌&&◌, ◌||◌, ◌∷◌, ◌++◌, string_eq, if◌then◌else◌, nat_eq, string_eq,
}
use service_framework.Ids.{high_part}
use service_framework.Conn.{IoBuf}
use service_framework.Config.{ServiceConfig}
use service_framework.ThreadGroup.{
  ThreadGroupListManager, ThreadType, conn_accept, conn_client, get_io_thread_pool_executor,
  get_event_base_by_thread_id,
}

pub record ServiceFactory : Type 0 where
  pub factory_type : String
  pub factory_name : String

pub data Service : Type 0 where
  single : ServiceConfig → Service
  tcp_client_group : ServiceConfig → List ServiceConfig → Service

-- `factories` are those of the factory manager, `running` the instances that `Start` was called on.
pub record ServiceManager : Type 0 where
  pub services : List (String × Service)
  pub thread_groups : ThreadGroupListManager
  pub service_configs : List ServiceConfig
  pub factories : List ServiceFactory
  pub running : List ServiceConfig

-- The loop of `CreateService`: whether a factory has the type and the name.
unfoldable pub creates : List ServiceFactory → ServiceConfig → Bool
creates [] config = false
creates (f ∷ fs) config =
    let rest = creates fs config in
    if string_eq.beq f.factory_type config.service_type
      && string_eq.beq f.factory_name config.service_name
    then true
    else rest

-- The group of threads that a type of service runs on; `none` is an unknown type.
unfoldable pub threads_of : String → Option ThreadType
threads_of type =
    if string_eq.beq type "tcp_server"
    then some conn_accept
    else if string_eq.beq type "tcp_client"
    then some conn_client
    else if string_eq.beq type "http_server"
    then some conn_accept
    else none

unfoldable pub register_service_factory : ServiceManager → String → String → ServiceManager
register_service_factory m name type = elim (threads_of type) [
  | none ↦ m
  | some t ↦ elim (get_io_thread_pool_executor m.thread_groups t) [
    | none ↦ m
    | some pool ↦ record m {
      factories = m.factories ++ record { factory_type = type; factory_name = name } ∷ [];
    }
  ]
]

-- The default factory of a type, which has the type for its name.
unfoldable pub default_factory : ThreadGroupListManager → ThreadType → String → List ServiceFactory
default_factory groups t type = elim (get_io_thread_pool_executor groups t) [
  | none ↦ []
  | some pool ↦ record { factory_type = type; factory_name = type } ∷ []
]

unfoldable pub set_thread_groups : ServiceManager → ThreadGroupListManager → ServiceManager
set_thread_groups m groups = record m {
  thread_groups = groups;
  factories =
      m.factories
      ++ default_factory groups conn_accept "tcp_server"
      ++ default_factory groups conn_client "tcp_client";
}

unfoldable pub lookup : ServiceManager → String → Option Service
lookup m service_name = find service_name m.services

-- The branch of `tcp_client`: into the group that is there, or into a new one.
unfoldable pub register_client : ServiceManager → ServiceConfig → Option ServiceManager
register_client m c = elim (find c.service_name m.services) [
  | none ↦
      some (record m { services = insert c.service_name (tcp_client_group c (c ∷ [])) m.services })
  | some (single d) ↦ none
  | some (tcp_client_group d cs) ↦
      if string_eq.beq c.service_type d.service_type
      then some (record m {
        services = modify c.service_name (λ g. tcp_client_group d (cs ++ c ∷ [])) m.services;
      })
      else none
]

-- The branches of the servers.
unfoldable pub register_server : ServiceManager → ServiceConfig → Option ServiceManager
register_server m c =
    if contains c.service_name m.services
    then none
    else some (record m { services = insert c.service_name (single c) m.services })

unfoldable pub is_server : String → Bool
is_server type =
    string_eq.beq type "tcp_server"
    || string_eq.beq type "secure_tcp_server"
    || string_eq.beq type "http_server"

-- `RegisterServiceBase`, which answers true whenever it returns.
unfoldable pub register_service_base : ServiceManager → ServiceConfig → Option ServiceManager
register_service_base m c =
    if string_eq.beq c.service_type "tcp_client"
    then register_client m c
    else if is_server c.service_type
    then register_server m c
    else none

-- How `Start` ends: it returns, the `Start` of a service throws, or `LOG(FATAL)` ends the program.
pub data Ending {ℓ} (M : Type ℓ) : Type ℓ where
  returned : M → Ending M
  threw : M → Ending M
  fatal : Ending M

-- The loop of `Start`; `throws` tells which services throw from their `Start`, as TcpServer and
-- HttpServer do when they cannot bind.
unfoldable pub start_all :
    (ServiceConfig → Bool) → ServiceManager → List ServiceConfig → Ending ServiceManager
start_all throws m [] = returned m
start_all throws m (c ∷ cs) = elim (creates m.factories c) [
  | true ↦ elim (register_service_base m c) [
    | none ↦ fatal
    | some m' ↦ elim (throws c) [
      | true ↦ threw (record m' { running = m'.running ++ c ∷ [] })
      | false ↦ start_all throws (record m' { running = m'.running ++ c ∷ [] }) cs
    ]
  ]
  | false ↦ start_all throws m cs
]

unfoldable pub start : (ServiceConfig → Bool) → ServiceManager → Ending ServiceManager
start throws m = start_all throws m m.service_configs

-- `SendIOBuf(conn_id, data)`: what it answers, and the closures that it posts: the event
-- base, and the id and the data for `SendIOBufByConnID` there.
unfoldable pub send_io_buf : ServiceManager → ℕ → IoBuf → Option (Bool × List (ℕ × ℕ × IoBuf))
send_io_buf m conn_id buf = elim (get_event_base_by_thread_id m.thread_groups (high_part conn_id)) [
  | none ↦ none
  | some none ↦ some (false, [])
  | some (some evb) ↦ some (true, (evb, conn_id, buf) ∷ [])
]

-- `SetupService`, of its configuration's services.
unfoldable pub setup_service : ServiceManager → List ServiceConfig → ServiceManager
setup_service m configs = record m { service_configs = configs }

pub data DispatchStrategy : Type 0 where
  by_default : DispatchStrategy
  by_random : DispatchStrategy
  by_round_robin : DispatchStrategy
  by_consistency_hash : DispatchStrategy
  by_broad_cast : DispatchStrategy

-- A group's client, by its place in the list, and what `SendIOBufThreadSafe` is called with.
abbrev pub Sent : Type 0
Sent = ℕ × IoBuf

-- The loop of the broadcast from place `i` on.
unfoldable pub send_connected : (ℕ → Bool) → ℕ → List ServiceConfig → IoBuf → List Sent
send_connected connected i [] buf = []
send_connected connected i (c ∷ cs) buf =
    let rest = send_connected connected (i + 1) cs buf in
    if connected i then (i, buf) ∷ rest else rest

-- `TcpClientGroup::SendIOBuf`. `connected` tells which clients are connected, and `rand` is what
-- `rand32` draws for their number.
unfoldable pub group_send_io_buf :
    (ℕ → Bool) → (ℕ → ℕ) → List ServiceConfig → IoBuf → DispatchStrategy → Bool × List Sent
group_send_io_buf connected rand [] buf strategy = (false, [])
group_send_io_buf connected rand (c ∷ cs) buf by_broad_cast =
    (true, send_connected connected 0 (c ∷ cs) buf)
group_send_io_buf connected rand (c ∷ cs) buf by_default =
    (true, (rand (length (c ∷ cs)), buf) ∷ [])
group_send_io_buf connected rand (c ∷ cs) buf by_random = (true, (rand (length (c ∷ cs)), buf) ∷ [])
group_send_io_buf connected rand (c ∷ cs) buf by_round_robin =
    (true, (rand (length (c ∷ cs)), buf) ∷ [])
group_send_io_buf connected rand (c ∷ cs) buf by_consistency_hash =
    (true, (rand (length (c ∷ cs)), buf) ∷ [])

-- `SendIOBuf(service_name, data, dispatch_strategy)`
unfoldable pub send_io_buf_by_name :
    ServiceManager → (ℕ → Bool) → (ℕ → ℕ) → String → IoBuf → DispatchStrategy → Bool × List Sent
send_io_buf_by_name m connected rand service_name buf strategy = elim (lookup m service_name) [
  | none ↦ (false, [])
  | some (single c) ↦ (false, [])
  | some (tcp_client_group c cs) ↦ group_send_io_buf connected rand cs buf strategy
]
