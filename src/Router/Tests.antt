-- ===== src/Router/Tests.antt =====
-- A configuration of two servers and a client, and the theorem at it.
use service_framework.Prelude.{refl, Bool, List, [], ◌≡◌, ◌∷◌, string_eq, nat_eq, string_eq}
use service_framework.IoPool.{new_io_pool}
use service_framework.Config.{ServiceConfig}
use service_framework.Router.{
  ServiceRouterManager, new_service_router_manager, register_service_factory,
}
use service_framework.Router.Started.{servers}

abbrev access_server : ServiceConfig
access_server = record {
  service_name = "access_server";
  service_type = "tcp_server";
  hosts = "0.0.0.0";
  port = 12345;
  max_conn_cnt = 200000;
}

abbrev status_client : ServiceConfig
status_client = record {
  service_name = "tcp_client";
  service_type = "tcp_client";
  hosts = "127.0.0.1";
  port = 22345;
  max_conn_cnt = 200000;
}

abbrev router : ServiceRouterManager
router = new_service_router_manager (new_io_pool (1 ∷ []))

abbrev with_access : ServiceRouterManager
with_access =
    register_service_factory router
      (record { factory_type = "tcp_server"; factory_name = "access_server" })

abbrev web_server : ServiceConfig
web_server = record access_server { service_name = "web"; service_type = "http_server" }

abbrev all_three : List ServiceConfig
all_three = access_server ∷ status_client ∷ web_server ∷ []

-- The server for the web cannot bind.
abbrev web_throws : ServiceConfig → Bool
web_throws c = string_eq.beq c.service_type "http_server"

abbrev with_web : ServiceRouterManager
with_web =
    register_service_factory with_access
      (record { factory_type = "http_server"; factory_name = "web" })

only_the_servers : servers all_three ≡ access_server ∷ web_server ∷ []
only_the_servers = refl
