-- ===== src/Root/Tests.antt =====
-- A configuration with one section, and the theorem at it.
use service_framework.Prelude.{
  ℕ, String, refl, true, false, Option, none, some, List, [], ◌+◌, ◌≡◌, ◌∙◌, ◌&&◌, ◌||◌, ◌∷◌,
  string_eq, if◌then◌else◌, nat_eq, string_eq,
}
use service_framework.Config.{ServiceConfig}
use service_framework.Stats.{new_stats}
use service_framework.ThreadGroup.{ThreadType, conn_accept, new_manager}
use service_framework.Service.{ServiceManager, creates}
use service_framework.Root.Factories.{is_default, registered, can_run, creates-initialize}
use service_framework.Root.Timer.{
  tick, post_timer, loop_for_ever, ticks, next_due, loop_for_ever-ticks,
}
use service_framework.Json.{Json, ℤ, pos}
use service_framework.Config.{set_system_conf, read_int, to_uint32}
use service_framework.Root.{Root, load_config, new_root, initialize}
use service_framework.Root.Loading.{sections, text_of, load_config-sections}

-- The values of a document with the section "system".
data Value : Type 0 where
  document system : Value
  size : ℕ → Value

find_value : Value → String → Option Value
find_value document key = if string_eq.beq key "system" then some system else none
find_value system key = if string_eq.beq key "io_thread_pool_size" then some (size 4) else none
find_value (size n) key = none

int_of : Value → Option ℤ
int_of (size n) = some (pos n)
int_of _ = none

abbrev values : Json Value
values = record { find = find_value; get_int = int_of; get_string = λ v. none; items = λ v. [] }

abbrev set_level : Value → ℕ → Option ℕ
set_level v level = some (level + 1)

abbrev parse : String → Option Value
parse text = some document

abbrev read_file : String → Option String
read_file path = some "{}"

four_threads :
    load_config values 8 set_level parse read_file "app.json" (new_root 0)
    ≡ some (true, record (new_root 0) { system_config = 4; io_thread_pool_size = 4 })
unfolding set_system_conf read_int to_uint32 find_value int_of
four_threads =
    load_config-sections values 8 set_level parse read_file "app.json" (new_root 0) ∙ refl

load_config-sections_example :
    load_config values 8 set_level parse read_file "app.json" (new_root 0)
    ≡ elim (text_of read_file "app.json") [
      | none ↦ some (false, new_root 0)
      | some text ↦ elim (parse text) [
        | none ↦ none
        | some doc ↦ sections values 8 set_level doc (new_root 0)
      ]
    ]
load_config-sections_example =
    load_config-sections values 8 set_level parse read_file "app.json" (new_root 0)

-- The first round comes at once, the second three milliseconds late, the third in time.
loop_for_ever-ticks_example :
    let l =
      loop_for_ever
        (0 ∷ 3 ∷ 0 ∷ [])
        (post_timer (record { now = 0; timers = []; on_timer = [] })) in
    (l.timers ≡ (next_due 2000 (3 ∷ 0 ∷ []), tick) ∷ []) × (l.on_timer ≡ ticks 2000 (3 ∷ 0 ∷ []))
loop_for_ever-ticks_example = loop_for_ever-ticks 0 (3 ∷ 0 ∷ []) 0

two_ticks : ticks 2000 (3 ∷ 0 ∷ []) ≡ 2003 ∷ 3003 ∷ []
two_ticks = refl

abbrev two_accept : ThreadType → ℕ → List ℕ
two_accept type count = 40 ∷ 41 ∷ []

abbrev access : ServiceConfig
access = record {
  service_name = "access";
  service_type = "tcp_server";
  hosts = "";
  port = 8000;
  max_conn_cnt = 0;
}

abbrev access_root : Root ℕ
access_root = record (new_root 0) {
  services_config = access ∷ [];
  thread_group_options = record { thread_type = conn_accept; thread_size = 2 } ∷ [];
}

abbrev empty_manager : ServiceManager
empty_manager = record {
  services = [];
  thread_groups = new_manager;
  service_configs = [];
  factories = [];
  running = [];
}

abbrev own_services : List (String × String)
own_services = ("access", "tcp_server") ∷ []

creates-initialize_example :
    creates
      (initialize two_accept access_root own_services empty_manager
        (new_stats "fiber" 6)).0.factories
      access
    ≡ (creates [] access
        || ((is_default access || registered own_services access)
            && can_run access_root.thread_group_options access))
creates-initialize_example =
    creates-initialize two_accept access_root own_services empty_manager (new_stats "fiber" 6)
      access
