-- ===== src/Config.antt =====
-- `ServiceConfig`, `SystemConfig` and `ToServiceConfigs` of baselib/base/config_util.{h,cc}. `none` is
-- the exception of `get<...>` on a value of another type.
pub mod Reading
mod Tests
use service_framework.Prelude.{
  ℕ, String, Option, none, some, List, [], find, ◌-◌, ◌%◌, ◌∷◌, ◌>>=◌, nat_eq, string_eq,
}
use service_framework.Ids.{u32_mod}
use service_framework.Json.{Json, ℤ, pos, negsuc}

pub record ServiceConfig : Type 0 where
  pub service_name : String
  pub service_type : String
  pub hosts : String
  pub port : ℕ
  pub max_conn_cnt : ℕ

-- `make_shared<ServiceConfig>()`, which clears the fields first.
abbrev pub new_service_config : ServiceConfig
new_service_config = record {
  service_name = "";
  service_type = "";
  hosts = "";
  port = 0;
  max_conn_cnt = 0;
}

-- The conversion of an `int` to `uint32_t`.
unfoldable pub to_uint32 : ℤ → ℕ
to_uint32 (pos n) = n % u32_mod
to_uint32 (negsuc n) = u32_mod - 1 - n % u32_mod

module _ {J : Type 0} (json : Json J) where
  -- `if (conf.find(key) != conf.end()) field = conf[key].get<...>()`, for texts and for numbers.
  unfoldable pub read_string : J → String → String → Option String
  read_string conf key old = elim (json.find conf key) [
    | none ↦ some old
    | some v ↦ json.get_string v
  ]

  unfoldable pub read_int : J → String → ℕ → Option ℕ
  read_int conf key old = elim (json.find conf key) [
    | none ↦ some old
    | some v ↦ elim (json.get_int v) [ none ↦ none | some n ↦ some (to_uint32 n) ]
  ]

  unfoldable pub set_conf : J → ServiceConfig → Option ServiceConfig
  set_conf conf c = do
    service_name ← read_string conf "service_name" c.service_name
    service_type ← read_string conf "service_type" c.service_type
    hosts ← read_string conf "hosts" c.hosts
    port ← read_int conf "port" c.port
    max_conn_cnt ← read_int conf "max_conn_cnt" c.max_conn_cnt
    some (record {
      service_name = service_name;
      service_type = service_type;
      hosts = hosts;
      port = port;
      max_conn_cnt = max_conn_cnt;
    })

  -- The loop of `ToServiceConfigs`.
  unfoldable pub read_configs : List J → Option (List ServiceConfig)
  read_configs [] = some []
  read_configs (item ∷ items) = do
    c ← set_conf item new_service_config
    cs ← read_configs items
    some (c ∷ cs)

  unfoldable pub to_service_configs : J → Option (List ServiceConfig)
  to_service_configs conf = read_configs (json.items conf)

  -- `SystemConfig::SetConf`, of its one field.
  unfoldable pub set_system_conf : J → ℕ → Option ℕ
  set_system_conf conf io_thread_pool_size = read_int conf "io_thread_pool_size" io_thread_pool_size
