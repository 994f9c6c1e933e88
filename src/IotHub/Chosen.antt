-- ===== src/IotHub/Chosen.antt =====
-- Which of the configured services the program starts.
use service_framework.Prelude.{
  String, refl, sym, ap, inl, inr, Bool, false, List, [], arith, Bool-cases, ◌≡◌, ◌∙◌, ◌&&◌, ◌||◌,
  ◌∷◌, string_eq, if◌then◌else◌, nat_eq, string_eq,
}
use service_framework.Config.{ServiceConfig}
use service_framework.ThreadGroup.{ThreadGroupOption, conn_accept, conn_client}
use service_framework.Root.Factories.{has_threads, can_run, is_default, registered}
use service_framework.Root.Boot.{can_start, startable}
use service_framework.IotHub.{hub_services}

-- Servers under their type's name or under that of the program, where there are threads that accept;
-- clients under their type's name, where there are threads for them.
abbrev pub hub_starts : List ThreadGroupOption → ServiceConfig → Bool
hub_starts options c =
    (string_eq.beq "tcp_server" c.service_type
      && (string_eq.beq "tcp_server" c.service_name
          || string_eq.beq "iot_hub_server" c.service_name)
      && has_threads conn_accept options)
    || (string_eq.beq "tcp_client" c.service_type
        && string_eq.beq "tcp_client" c.service_name
        && has_threads conn_client options)

abbrev pub hub_chosen : List ThreadGroupOption → List ServiceConfig → List ServiceConfig
hub_chosen options [] = []
hub_chosen options (c ∷ cs) =
    if hub_starts options c then c ∷ hub_chosen options cs else hub_chosen options cs

beq_sym : (s t : String) → string_eq.beq s t ≡ string_eq.beq t s
beq_sym s t = ground (arith, string_eq.beq_iff s t, string_eq.beq_iff t s)

can_run_lem :
    (options : List ThreadGroupOption) (c : ServiceConfig)
    → can_run options c ≡ (
        if string_eq.beq "tcp_server" c.service_type
        then has_threads conn_accept options
        else if string_eq.beq "tcp_client" c.service_type
        then has_threads conn_client options
        else if string_eq.beq c.service_type "http_server"
        then has_threads conn_accept options
        else false)
can_run_lem options c =
    ground (arith, beq_sym c.service_type "tcp_server", beq_sym c.service_type "tcp_client")

not_both : (s : String) → (string_eq.beq "tcp_server" s && string_eq.beq "tcp_client" s) ≡ false
not_both s = elim (Bool-cases (string_eq.beq "tcp_server" s)) [
  | inl server ↦ rw (sym ((string_eq.beq_iff "tcp_server" s).0 server)) refl
  | inr other ↦ rw other refl
]

hub_flat :
    (server named_server named_hub client named_client http accept connect : Bool)
    → (server && client) ≡ false
    → (((server && named_server) || (client && named_client) || ((server && named_hub) || false))
        && (if server then accept else if client then connect else if http then accept else false))
      ≡ ((server && (named_server || named_hub) && accept) || (client && named_client && connect))
hub_flat server named_server named_hub client named_client http accept connect h = ground (arith, h)

can_start-hub_starts :
    (options : List ThreadGroupOption) (c : ServiceConfig)
    → can_start hub_services options c ≡ hub_starts options c
can_start-hub_starts options c =
    ap (λ b. (is_default c || registered hub_services c) && b) (can_run_lem options c)
    ∙ hub_flat (string_eq.beq "tcp_server" c.service_type)
        (string_eq.beq "tcp_server" c.service_name) (string_eq.beq "iot_hub_server" c.service_name)
        (string_eq.beq "tcp_client" c.service_type) (string_eq.beq "tcp_client" c.service_name)
        (string_eq.beq c.service_type "http_server") (has_threads conn_accept options)
        (has_threads conn_client options) (not_both c.service_type)

pub startable-hub_chosen :
    (options : List ThreadGroupOption) (cs : List ServiceConfig)
    → startable hub_services options cs ≡ hub_chosen options cs
startable-hub_chosen options [] = refl
startable-hub_chosen options (c ∷ cs) =
    rw (can_start-hub_starts options c, startable-hub_chosen options cs) refl
