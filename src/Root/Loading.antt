-- ===== src/Root/Loading.antt =====
-- What `LoadConfig` of `Root` reads, section by section.
use service_framework.Prelude.{
  ℕ, String, refl, inl, inr, Bool, true, false, Option, none, some, [], arith, Bool-cases,
  Option-cases, find, ◌≡◌, ◌∷◌, ◌>>=◌, string_eq, if◌then◌else◌, nat_eq, string_eq,
}
use service_framework.Json.{Json}
use service_framework.Config.{to_service_configs, set_system_conf}
use service_framework.ThreadGroup.{set_conf}
use service_framework.ConfigManager.{ConfigManager, register, map_insert}
use service_framework.ConfigManager
use service_framework.Root.{
  Root, load_config, root_config_manager, logger_item, services_item, system_item,
  thread_group_item,
}

-- The configuration's text: none for an empty path, and for a file that cannot be read.
abbrev pub text_of : (String → Option String) → String → Option String
text_of read_file path = if string_eq.beq path "" then none else read_file path

module _ {J L : Type 0} (json : Json J) (hardware : ℕ) (set_logger : J → L → Option L) where
  -- The value of a section: what is read from it, and `old` where it is missing.
  abbrev pub section : {A : Type 0} → J → String → (J → Option A) → A → Option A
  section doc key read old = elim (json.find doc key) [ none ↦ some old | some v ↦ read v ]

  abbrev pub sections : J → Root L → Option (Bool × Root L)
  sections doc r = do
    logger ← section doc "logger" (λ v. set_logger v r.logger) r.logger
    services ← section doc "services" (to_service_configs json) r.services_config
    system ← section doc "system" (λ v. set_system_conf json v r.system_config) r.system_config
    options ←
        section doc "thread_group" (λ v. set_conf json hardware v r.thread_group_options)
          r.thread_group_options
    some (
      true,
      record {
        logger = logger;
        services_config = services;
        system_config = system;
        thread_group_options = options;
        io_thread_pool_size = system;
      },
    )

  items_lem :
      (root_config_manager json hardware set_logger).config_items
      ≡ ("logger", logger_item json hardware set_logger)
        ∷ ("services", services_item json hardware set_logger)
        ∷ ("system", system_item json hardware set_logger)
        ∷ ("thread_group", thread_group_item json hardware set_logger)
        ∷ []
  unfolding root_config_manager register map_insert find
  items_lem = refl

  loaded : Option (Root L) → Option (Bool × Root L)
  loaded none = none
  loaded (some s) = some (true, record s { io_thread_pool_size = s.system_config })

  update_lem :
      (doc : J) (r : Root L)
      → loaded (
          ConfigManager.update_items json.find
            (root_config_manager json hardware set_logger).config_items
            doc
            r)
        ≡ sections doc r
  unfolding loaded ConfigManager.update_items
  update_lem doc r = rw items_lem (ground arith)

  module _ (parse : String → Option J) (read_file : String → Option String) where
    -- `LoadConfig`, whatever the file holds: an empty path and an unreadable file answer false and change
    -- nothing; a text that does not parse throws; else the sections "logger", "services", "system" and
    -- "thread_group" are read into their members, a missing one changes nothing, a bad one throws, and
    -- the size of the thread pool is the one of the section "system".
    pub load_config-sections :
        (path : String) (r : Root L)
        → load_config json hardware set_logger parse read_file path r
          ≡ elim (text_of read_file path) [
            | none ↦ some (false, r)
            | some text ↦ elim (parse text) [ none ↦ none | some doc ↦ sections doc r ]
          ]
    unfolding loaded load_config ConfigManager.initialize ConfigManager.on_config_updated
        ConfigManager.on_config_data_updated ConfigManager.update_items
    load_config-sections path r = elim (Bool-cases (string_eq.beq path "")) [
      | inl e ↦ ground (arith, e)
      | inr e ↦ elim (Option-cases (read_file path)) [
        | inl unread ↦ ground (arith, e, unread)
        | inr (text, eq) ↦ elim (Option-cases (parse text)) [
          | inl bad ↦ ground (arith, e, eq, bad)
          | inr (doc, good) ↦ ground (arith, e, eq, good, update_lem doc r)
        ]
      ]
    ]
