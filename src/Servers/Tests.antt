-- ===== src/Servers/Tests.antt =====
-- An HTTP server, and the theorem at it.
use service_framework.Config.{ServiceConfig}
use service_framework.ThreadGroup.{io_pool}
use service_framework.Servers.{PoolFactory}

abbrev web : ServiceConfig
web = record {
  service_name = "web";
  service_type = "http_server";
  hosts = "0.0.0.0";
  port = 8080;
  max_conn_cnt = 0;
}

abbrev web_factory : PoolFactory
web_factory = record {
  factory = record { factory_type = "http_server"; factory_name = "web" };
  io_group = io_pool 4;
}
