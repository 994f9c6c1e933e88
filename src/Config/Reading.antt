-- ===== src/Config/Reading.antt =====
-- What a configuration's services become.
use service_framework.Prelude.{
  ℕ, zero, suc, String, refl, ap, subst, some, List, [], arith, length, get_elem?, All, ◌≡◌, ◌∷◌,
}
use service_framework.Json.{Json}
use service_framework.Config.{
  ServiceConfig, new_service_config, read_string, read_int, set_conf, read_configs,
  to_service_configs,
}

module _ {J : Type 0} (json : Json J) where
  some_same : (x y : J) → some x ≡ some y → x ≡ y
  some_same x y h = ground (arith, h)

  read_string_again :
      (conf : J) (key old new : String)
      → read_string json conf key old ≡ some new
      → read_string json conf key new ≡ some new
  unfolding read_string
  read_string_again conf key old new h = ground (arith, h)

  read_int_again :
      (conf : J) (key : String) (old new : ℕ)
      → read_int json conf key old ≡ some new
      → read_int json conf key new ≡ some new
  unfolding read_int
  read_int_again conf key old new h = ground (arith, h)

  -- The five fields, each read on its own.
  record Reads (conf : J) (c c' : ServiceConfig) : Type 0 where
    name : read_string json conf "service_name" c.service_name ≡ some c'.service_name
    type : read_string json conf "service_type" c.service_type ≡ some c'.service_type
    hosts : read_string json conf "hosts" c.hosts ≡ some c'.hosts
    port : read_int json conf "port" c.port ≡ some c'.port
    count : read_int json conf "max_conn_cnt" c.max_conn_cnt ≡ some c'.max_conn_cnt

  set_conf-Reads :
      (conf : J) (c c' : ServiceConfig) → set_conf json conf c ≡ some c' → Reads conf c c'
  unfolding set_conf
  set_conf-Reads conf c c' h = ground (arith, h)

  set_conf_of_Reads :
      (conf : J) (c c' : ServiceConfig) → Reads conf c c' → set_conf json conf c ≡ some c'
  unfolding set_conf
  set_conf_of_Reads conf c c' r = rw (r.name, r.type, r.hosts, r.port, r.count) refl

  -- `SetConf` with the same configuration again changes nothing.
  set_conf_again :
      (conf : J) (c c' : ServiceConfig)
      → set_conf json conf c ≡ some c'
      → set_conf json conf c' ≡ some c'
  set_conf_again conf c c' h =
      let r = set_conf-Reads conf c c' h in
      set_conf_of_Reads conf c' c' (record {
        name = read_string_again conf "service_name" c.service_name c'.service_name r.name;
        type = read_string_again conf "service_type" c.service_type c'.service_type r.type;
        hosts = read_string_again conf "hosts" c.hosts c'.hosts r.hosts;
        port = read_int_again conf "port" c.port c'.port r.port;
        count = read_int_again conf "max_conn_cnt" c.max_conn_cnt c'.max_conn_cnt r.count;
      })

  -- One configuration for each item, in their order.
  abbrev pub Read : List J → List ServiceConfig → Type 0
  Read items cs =
      (length cs ≡ length items)
      × ((i : ℕ) (item : J)
          → get_elem? items i ≡ some item
          → (c : ServiceConfig) × (get_elem? cs i ≡ some c)
            × (set_conf json item new_service_config ≡ some c))

  -- Every item can be read.
  abbrev pub Readable : List J → Type 0
  Readable items =
      All (λ item. (c : ServiceConfig) × (set_conf json item new_service_config ≡ some c)) items

  each_next :
      (item : J) (items : List J) (c : ServiceConfig) (cs : List ServiceConfig)
      → set_conf json item new_service_config ≡ some c
      → ((i : ℕ) (it : J)
          → get_elem? items i ≡ some it
          → (d : ServiceConfig) × (get_elem? cs i ≡ some d)
            × (set_conf json it new_service_config ≡ some d))
      → (i : ℕ) (it : J) → get_elem? (item ∷ items) i ≡ some it
      → (d : ServiceConfig) × (get_elem? (c ∷ cs) i ≡ some d)
        × (set_conf json it new_service_config ≡ some d)
  each_next item items c cs now each zero it h =
      (c, refl, subst (λ x. set_conf json x new_service_config ≡ some c) (some_same item it h) now)
  each_next item items c cs now each (suc i) it h = each i it h

  read_configs-Read :
      (items : List J)
      → Readable items
      → (cs : List ServiceConfig) × (read_configs json items ≡ some cs) × Read items cs
  unfolding read_configs
  read_configs-Read [] all = ([], refl, (refl, λ i item h. absurd (ground (arith, h))))
  read_configs-Read (item ∷ items) ((c, now), all) =
      let (cs, later, (size, each)) = read_configs-Read items all in
      (c ∷ cs, rw (now, later) refl, (ap suc size, λ i. each_next item items c cs now each i))

  -- When each of a configuration's items can be read on its own, `ToServiceConfigs` returns: one
  -- service for each item, in their order, each read into fresh fields and not into those of another.
  to_service_configs-Read :
      (conf : J)
      → Readable (json.items conf)
      → (cs : List ServiceConfig) × (to_service_configs json conf ≡ some cs)
        × Read (json.items conf) cs
  unfolding to_service_configs
  to_service_configs-Read conf all = read_configs-Read (json.items conf) all
