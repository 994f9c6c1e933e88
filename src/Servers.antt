-- ===== src/Servers.antt =====
-- The servers and their factories: baselib/net/server/tcp_server.cc, tcp_server_t.h, http_server.cc,
-- tcp_service_base.cc, and what baselib/net/server/tcp_client.cc makes of a configuration. A server's
-- calls of wangle's bootstrap and of HTTPServerLib are a list in their order.
pub mod Binding
mod Tests
use service_framework.Prelude.{
  ℕ, String, Bool, true, false, Option, none, some, List, [], ◌%◌, ◌^◌, ◌&&◌, ◌||◌, ◌∷◌, ◌++◌,
  string_eq, if◌then◌else◌, nat_eq, string_eq,
}
use service_framework.Config.{ServiceConfig}
use service_framework.ThreadGroup.{Pool}
use service_framework.Tcp
use service_framework.Tcp.{TcpClient, new_tcp_client, set_child_pipeline}
use service_framework.Service.{ServiceFactory}

-- Calls of `ServerBootstrap<ConnPipeline>`: the idle time-out in milliseconds, whether the factory of
-- pipelines is not null, the pool of threads, the port.
pub data BootstrapCall : Type 0 where
  acceptor_config : ℕ → BootstrapCall
  child_pipeline : Bool → BootstrapCall
  group : Pool → BootstrapCall
  bind : ℕ → BootstrapCall
  stop_bootstrap : BootstrapCall

-- `DEFAULT_CONN_IDLE_TIMEOUT` and `HTTP_IDLE_TIMEOUT`
abbrev pub default_conn_idle_timeout : ℕ
default_conn_idle_timeout = 240000

abbrev pub http_idle_timeout : ℕ
http_idle_timeout = 60000

-- `server_`: the calls so far.
pub record TcpServer : Type 0 where
  pub config : ServiceConfig
  pub io_group : Pool
  pub factory : Bool
  pub server : List BootstrapCall

unfoldable pub call : TcpServer → BootstrapCall → TcpServer
call s c = record s { server = s.server ++ c ∷ [] }

abbrev pub new_tcp_server : ServiceConfig → Pool → TcpServer
new_tcp_server config io_group = record {
  config = config;
  io_group = io_group;
  factory = false;
  server = acceptor_config default_conn_idle_timeout ∷ [];
}

-- `TcpServer::SetChildPipeline`, `Start` and `Stop`
abbrev pub set_server_pipeline : TcpServer → Bool → TcpServer
set_server_pipeline s factory = record s { factory = factory }

unfoldable pub start_tcp_server : TcpServer → TcpServer × Bool
unfolding call
start_tcp_server s =
    (call (call (call s (child_pipeline s.factory)) (group s.io_group)) (bind s.config.port), true)

unfoldable pub stop_tcp_server : TcpServer → TcpServer × Bool
unfolding call
stop_tcp_server s = (call s stop_bootstrap, true)

-- `TcpServerT`, which hands the factory on at once, and `TcpServerFactoryT::CreateInstance`.
unfoldable pub set_child_pipeline_t : TcpServer → Bool → TcpServer
unfolding call
set_child_pipeline_t s factory = call s (child_pipeline factory)

unfoldable pub start_tcp_server_t : TcpServer → TcpServer × Bool
unfolding call
start_tcp_server_t s = (call (call s (group s.io_group)) (bind s.config.port), true)

unfoldable pub create_tcp_server_t : Pool → ServiceConfig → TcpServer
unfolding set_child_pipeline_t
create_tcp_server_t io_group config = set_child_pipeline_t (new_tcp_server config io_group) true

-- Calls of `HTTPServerLib`: made with the idle time-out, bound to a host and a 16-bit port.
pub data HttpLibCall : Type 0 where
  new_lib : ℕ → HttpLibCall
  bind_lib : String → ℕ → HttpLibCall
  start_lib : Pool → HttpLibCall
  stop_lib : HttpLibCall

-- `server`: the calls on the library's server, none while `server_` is null.
pub record HttpServer : Type 0 where
  pub config : ServiceConfig
  pub io_group : Pool
  pub server : Option (List HttpLibCall)

abbrev pub new_http_server : ServiceConfig → Pool → HttpServer
new_http_server config io_group = record { config = config; io_group = io_group; server = none }

-- `if (!server_)`
abbrev pub lib_of : Option (List HttpLibCall) → List HttpLibCall
lib_of none = new_lib http_idle_timeout ∷ []
lib_of (some calls) = calls

unfoldable pub start_http_server : HttpServer → HttpServer × Bool
start_http_server s = (
  record s {
    server = some (
        lib_of s.server
        ++ bind_lib s.config.hosts (s.config.port % 2 ^ 16) ∷ start_lib s.io_group ∷ []);
  },
  true,
)

-- `Stop`; `none` is a call through the null `server_`.
unfoldable pub stop_http_server : HttpServer → Option (HttpServer × Bool)
stop_http_server s = elim s.server [
  | none ↦ none
  | some calls ↦ some (record s { server = some (calls ++ stop_lib ∷ []) }, true)
]

-- The services that the factories make.
pub data Instance : Type 0 where
  tcp_server : TcpServer → Instance
  tcp_client : TcpClient → Instance
  http_server : HttpServer → Instance

-- A factory with its pool: `factories_` of the factory manager holds such.
pub record PoolFactory : Type 0 where
  pub factory : ServiceFactory
  pub io_group : Pool

-- `CreateTcpServiceFactory`; null for an unknown type.
unfoldable pub create_tcp_service_factory : String → String → Pool → Option PoolFactory
create_tcp_service_factory name type io_group =
    if string_eq.beq type "tcp_server"
      || string_eq.beq type "tcp_client"
      || string_eq.beq type "http_server"
    then some (record {
      factory = record { factory_type = type; factory_name = name };
      io_group = io_group;
    })
    else none

-- `CreateInstance` of the factory, by its type; `base` is the event base that the pool gives a client.
unfoldable pub create_instance : Option ℕ → PoolFactory → ServiceConfig → Option Instance
create_instance base f config =
    if string_eq.beq f.factory.factory_type "tcp_server"
    then some (tcp_server (set_server_pipeline (new_tcp_server config f.io_group) true))
    else if string_eq.beq f.factory.factory_type "tcp_client"
    then some (tcp_client (set_child_pipeline (new_tcp_client base) true))
    else if string_eq.beq f.factory.factory_type "http_server"
    then some (http_server (new_http_server config f.io_group))
    else none

-- `CreateService` over the factories with their pools.
unfoldable pub create_service : Option ℕ → List PoolFactory → ServiceConfig → Option Instance
create_service base [] config = none
create_service base (f ∷ fs) config =
    let rest = create_service base fs config in
    if string_eq.beq f.factory.factory_type config.service_type
      && string_eq.beq f.factory.factory_name config.service_name
    then create_instance base f config
    else rest

-- `Start` of the service; that of a client is modelled with it.
unfoldable pub start_instance : Instance → Instance
start_instance (tcp_server s) = tcp_server (start_tcp_server s).0
start_instance (tcp_client c) = tcp_client c
start_instance (http_server s) = http_server (start_http_server s).0
