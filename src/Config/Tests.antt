-- ===== src/Config/Tests.antt =====
-- A small configuration of services, and the theorems at it.
use service_framework.Prelude.{
  String, refl, Option, none, some, List, [], map, find, ◌≡◌, ◌∷◌, nat_eq, string_eq,
}
use service_framework.Json.{Json, ℤ, pos, negsuc}
use service_framework.Config.{
  ServiceConfig, new_service_config, to_uint32, read_string, read_int, set_conf,
}

-- Objects of texts and whole numbers stand for the values of the JSON library.
data Leaf : Type 0 where
  text : String → Leaf
  number : ℤ → Leaf

data Value : Type 0 where
  leaf : Leaf → Value
  object : List (String × Leaf) → Value
  array : List (List (String × Leaf)) → Value

find_value : Value → String → Option Value
find_value (object m) key = elim (find key m) [ none ↦ none | some v ↦ some (leaf v) ]
find_value (leaf v) key = none
find_value (array os) key = none

int_of : Value → Option ℤ
int_of (leaf (number n)) = some n
int_of (leaf (text s)) = none
int_of (object m) = none
int_of (array os) = none

text_of : Value → Option String
text_of (leaf (text s)) = some s
text_of (leaf (number n)) = none
text_of (object m) = none
text_of (array os) = none

items_of : Value → List Value
items_of (array os) = map object os
items_of (object m) = []
items_of (leaf v) = []

abbrev values : Json Value
values = record { find = find_value; get_int = int_of; get_string = text_of; items = items_of }

abbrev gateway_fields : List (String × Leaf)
gateway_fields =
    (("service_name", text "gateway")
      ∷ ("service_type", text "tcp_server")
      ∷ ("port", number (pos 12345))
      ∷ ("max_conn_cnt", number (negsuc 0))
      ∷ [])

abbrev read_gateway : ServiceConfig
read_gateway = record {
  service_name = "gateway";
  service_type = "tcp_server";
  hosts = "";
  port = 12345;
  max_conn_cnt = 4294967295;
}

abbrev gateway : Value
gateway = object gateway_fields

reads_gateway : set_conf values gateway new_service_config ≡ some read_gateway
unfolding set_conf read_string read_int to_uint32 find_value int_of text_of find
reads_gateway = refl
