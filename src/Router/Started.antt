-- ===== src/Router/Started.antt =====
-- What `Start` registers and starts.
use service_framework.Prelude.{
  String, Bool, true, none, List, [], map, find, ◌≡◌, ◌&&◌, ◌||◌, ◌∷◌, ◌++◌, string_eq,
  if◌then◌else◌, nat_eq, string_eq,
}
use service_framework.Config.{ServiceConfig}
use service_framework.Service.{returned, threw}
use service_framework.Service.Entries.{reached, any_throws}
use service_framework.Router.{ServiceRouterManager, start_services}

-- The types of the servers that a router starts.
abbrev pub is_server_type : String → Bool
is_server_type type = string_eq.beq type "tcp_server" || string_eq.beq type "http_server"

abbrev pub servers : List ServiceConfig → List ServiceConfig
servers [] = []
servers (c ∷ cs) = if is_server_type c.service_type then c ∷ servers cs else servers cs

-- The instances come only from types that a router knows, and no server has a name twice.
abbrev pub IsStartable : List (String × ServiceConfig) → List ServiceConfig → Type 0
IsStartable services [] = Unit
IsStartable services (c ∷ cs) =
    if is_server_type c.service_type
    then (find c.service_name services ≡ none)
      × IsStartable (services ++ (c.service_name, c) ∷ []) cs
    else (string_eq.beq c.service_type "tcp_client" ≡ true) × IsStartable services cs

-- A server whose `Start` throws; that of a client is not called.
abbrev pub server_throws : (ServiceConfig → Bool) → ServiceConfig → Bool
server_throws throws c = is_server_type c.service_type && throws c

abbrev pub named : ServiceConfig → String × ServiceConfig
named c = (c.service_name, c)

abbrev pub with_servers : ServiceRouterManager → List ServiceConfig → ServiceRouterManager
with_servers m cs = record m { services = m.services ++ map named cs; running = m.running ++ cs }

module _ (throws : ServiceConfig → Bool) where
  -- What the loop `cs` comes to, when `made` are those of `cs` that a factory is there for.
  abbrev Starts : ServiceRouterManager → List ServiceConfig → List ServiceConfig → Type 0
  Starts m cs made = start_services throws m cs ≡ (
      if any_throws (server_throws throws) made
      then threw (with_servers m (servers (reached (server_throws throws) made)))
      else returned (with_servers m (servers (reached (server_throws throws) made))))
