-- ===== src/Servers/Binding.antt =====
-- Where the services listen that the factories make.
use service_framework.Prelude.{
  ℕ, String, refl, Bool, true, false, Option, none, some, List, [], map, ◌%◌, ◌^◌, ◌≡◌, ◌∷◌, ◌++◌,
  string_eq, if◌then◌else◌, nat_eq, string_eq,
}
use service_framework.Config.{ServiceConfig}
use service_framework.ThreadGroup.{Pool}
use service_framework.Service.{creates}
use service_framework.Servers.{
  BootstrapCall, acceptor_config, child_pipeline, group, bind, stop_bootstrap, start_tcp_server,
  start_tcp_server_t, create_tcp_server_t, set_server_pipeline, new_tcp_server, HttpLibCall,
  new_lib, bind_lib, start_lib, stop_lib, Instance, tcp_server, tcp_client, http_server,
  PoolFactory, create_tcp_service_factory, create_service, start_instance,
}

-- An address, "" for every address of the machine, a port, and the pool whose threads serve it.
abbrev pub Listener : Type 0
Listener = String × ℕ × Pool

-- What a bootstrap listens on with a factory of pipelines and a pool of threads: the ports bound after
-- both were set, with the pool that was set last.
abbrev pub bound : Bool → Option Pool → List BootstrapCall → List Listener
bound factory pool [] = []
bound factory pool (acceptor_config timeout ∷ calls) = bound factory pool calls
bound factory pool (child_pipeline f ∷ calls) = bound f pool calls
bound factory pool (group p ∷ calls) = bound factory (some p) calls
bound factory none (bind port ∷ calls) = bound factory none calls
bound factory (some p) (bind port ∷ calls) =
    if factory then ("", port, p) ∷ bound factory (some p) calls else bound factory (some p) calls
bound factory pool (stop_bootstrap ∷ calls) = []

-- The same of HTTPServerLib, which listens on what it was bound to once it is started with a pool.
abbrev pub bound_lib : List (String × ℕ) → List HttpLibCall → List Listener
bound_lib addresses [] = []
bound_lib addresses (new_lib timeout ∷ calls) = bound_lib addresses calls
bound_lib addresses (bind_lib host port ∷ calls) = bound_lib ((host, port) ∷ []) calls
bound_lib addresses (start_lib p ∷ calls) = map (λ a. (a.0, a.1, p)) addresses ++ bound_lib [] calls
bound_lib addresses (stop_lib ∷ calls) = []

abbrev pub listening : Instance → List Listener
listening (tcp_server s) = bound false none s.server
listening (tcp_client c) = []
listening (http_server s) = elim s.server [ none ↦ [] | some calls ↦ bound_lib [] calls ]

-- The factory was made by `CreateTcpServiceFactory` or is one like those.
abbrev pub IsKnown : PoolFactory → Type 0
IsKnown f =
    create_tcp_service_factory f.factory.factory_name f.factory.factory_type f.io_group ≡ some f

-- What the service of a configuration is to listen on, with the pool of its factory.
abbrev pub addresses_of : Pool → ServiceConfig → List Listener
addresses_of pool c =
    if string_eq.beq c.service_type "tcp_server"
    then ("", c.port, pool) ∷ []
    else if string_eq.beq c.service_type "http_server"
    then (c.hosts, c.port % 2 ^ 16, pool) ∷ []
    else []

-- The first of the factories with the configuration's type and name.
pub record IsFirst (fs : List PoolFactory) (c : ServiceConfig) (f : PoolFactory) : Type 0 where
  pub before : List PoolFactory
  pub after : List PoolFactory
  pub parts : fs ≡ before ++ f ∷ after
  pub others : creates (map (λ g. g.factory) before) c ≡ false
  pub same_type : f.factory.factory_type ≡ c.service_type
  pub same_name : f.factory.factory_name ≡ c.service_name

-- The two kinds of TCP server make the same calls.
create_tcp_server_t-start :
    (io_group : Pool) (config : ServiceConfig)
    → (start_tcp_server_t (create_tcp_server_t io_group config)).0.server
      ≡ (start_tcp_server (set_server_pipeline (new_tcp_server config io_group) true)).0.server
unfolding start_tcp_server_t create_tcp_server_t start_tcp_server
create_tcp_server_t-start io_group config = refl

-- What the first factory with the type and the name of `c` makes of it.
abbrev Makes : Option ℕ → List PoolFactory → ServiceConfig → Type 0
Makes base fs c =
    (f : PoolFactory) × (i : Instance) × IsFirst fs c f
    × (create_service base fs c ≡ some i)
    × (listening (start_instance i) ≡ addresses_of f.io_group c)
