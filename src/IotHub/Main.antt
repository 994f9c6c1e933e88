-- ===== src/IotHub/Main.antt =====
-- The program from its command line to its end.
use service_framework.Prelude.{
  ℕ, String, refl, sym, ap, subst, inl, inr, Bool, true, false, Option, none, some, [], arith,
  Option-cases, find, ◌≡◌, ◌∙◌, ◌∷◌, ◌++◌, ◌>>=◌, nat_eq, string_eq,
}
use service_framework.Config.{ServiceConfig}
use service_framework.ConfigManager
use service_framework.ConfigManager.{register, map_insert}
use service_framework.Snowflake.{init_snowflake_worker_id}
use service_framework.Service.{lookup}
use service_framework.Service.Entries.{named, Fits, service_of}
use service_framework.BaseMain.{
  CommandLine, config_file, do_main, initialize_and_run, run_and_destroy,
}
use service_framework.Root.{Root, logger_item, services_item, system_item, thread_group_item}
use service_framework.Root.Loading.{sections, text_of, section}
use service_framework.Root.Running.{System, Process, root_program, root_initialize, run, destroy}
use service_framework.Root.Boot.{chosen, startable, startable, initialized, do_main-Loads}
use service_framework.Root.DoMain.{do_main-chosen}
use service_framework.IotHub.Chosen.{hub_chosen, startable-hub_chosen}
use service_framework.IotHub.{
  IotHubConfig, Hub, set_conf, on_root, hub_item, hub_config_manager, hub_load_config,
  hub_initialize, hub_program, hub_services,
}

abbrev exits : {A : Type 0} → A → Option (ℕ × A)
exits s = some (0, s)

abbrev exits_with : {A B : Type 0} → (A → B) → ℕ × A → Option (ℕ × B)
exits_with f (n, q) = some (n, f q)

regroup :
    {A B : Type 0} (o : Option A) (f : A → B)
    → ((o >>= λ q. some (f q)) >>= exits) ≡ ((o >>= exits) >>= exits_with f)
regroup none f = refl
regroup (some q) f = refl

module _ {J L : Type 0} (sys : System J L) where
  hub_items :
      (hub_config_manager sys).config_items
      ≡ ("iot_hub_server", hub_item sys)
        ∷ ("logger", on_root sys (logger_item sys.json sys.hardware sys.set_logger))
        ∷ ("services", on_root sys (services_item sys.json sys.hardware sys.set_logger))
        ∷ ("system", on_root sys (system_item sys.json sys.hardware sys.set_logger))
        ∷ ("thread_group", on_root sys (thread_group_item sys.json sys.hardware sys.set_logger))
        ∷ []
  unfolding hub_config_manager register map_insert find
  hub_items = refl

  -- What the sections of a document make of the program.
  abbrev pub hub_sections : J → Hub L → Option (Bool × Hub L)
  hub_sections doc h = do
    config ←
        section sys.json sys.hardware sys.set_logger doc "iot_hub_server"
          (λ v. set_conf sys.json v h.config) h.config
    (rv, r) ← sections sys.json sys.hardware sys.set_logger doc h.process.root
    some (rv, record h { process = record h.process { root = r }; config = config })

  abbrev hub_loaded : Option (Hub L) → Option (Bool × Hub L)
  hub_loaded none = none
  hub_loaded (some s) = some (
    true,
    record s {
      process = record s.process {
        root = record s.process.root { io_thread_pool_size = s.process.root.system_config };
      };
    },
  )

  hub_update :
      (doc : J) (h : Hub L)
      → hub_loaded
          (ConfigManager.update_items sys.json.find (hub_config_manager sys).config_items doc h)
        ≡ hub_sections doc h
  unfolding ConfigManager.update_items
  hub_update doc h = rw hub_items (ground arith)

  hub_load :
      (path text : String) (doc : J) (h : Hub L)
      → text_of sys.read_file path ≡ some text
      → sys.parse text ≡ some doc
      → hub_load_config sys path h ≡ hub_sections doc h
  unfolding hub_load_config ConfigManager.initialize ConfigManager.on_config_updated
      ConfigManager.on_config_data_updated
  hub_load path text doc h readable parsed = ground (arith, readable, parsed, hub_update doc h)

  -- The sections lead to `r` and `config`.
  abbrev pub HubLoads : CommandLine → Hub L → Root L → IotHubConfig → Type 0
  HubLoads line h r config =
      (text : String) × (doc : J) × (text_of sys.read_file (config_file line) ≡ some text)
      × (sys.parse text ≡ some doc)
      × (section sys.json sys.hardware sys.set_logger doc "iot_hub_server"
            (λ v. set_conf sys.json v h.config) h.config
          ≡ some config)
      × (sections sys.json sys.hardware sys.set_logger doc h.process.root ≡ some (true, r))

  -- The program around the process of its base.
  abbrev pub around : Hub L → IotHubConfig → Process L → Hub L
  around h config q = record h {
    process = q;
    config = config;
    globals = init_snowflake_worker_id h.globals config.server_number 1;
  }

  run_and_destroy-inherited :
      (line : CommandLine) (h : Hub L)
      → run_and_destroy (hub_program sys line) h ≡ (
          run_and_destroy (root_program sys line) h.process >>= λ q.
          some (record h { process = q }))
  unfolding run_and_destroy destroy
  run_and_destroy-inherited line h = elim (Option-cases (run sys line h.process)) [
    | inl stopped ↦ ground (arith, stopped)
    | inr ((rv, q), ran) ↦ ground (arith, ran)
  ]

  hub_main-do_main :
      (line : CommandLine) (h : Hub L) (r : Root L) (config : IotHubConfig)
      → HubLoads line h r config
      → do_main (hub_program sys line) line h
        ≡ (do_main (root_program sys line) line h.process >>= exits_with (around h config))
  unfolding do_main initialize_and_run hub_initialize root_initialize
  hub_main-do_main line h r config (text, doc, readable, parsed, hub, root) =
      let loaded : hub_load_config sys (config_file line) h
          ≡ some (true, record h { process = record h.process { root = r }; config = config }) =
        hub_load (config_file line) text doc h readable parsed ∙ rw (hub, root) refl in
      rw (loaded, do_main-Loads sys line h.process r (text, doc, readable, parsed, root))
        (rw (run_and_destroy-inherited line (around h config (initialized sys line r h.process))) (
          regroup (run_and_destroy (root_program sys line) (initialized sys line r h.process))
            (around h config)))

  -- For a configuration file that is read into `r` and `config`, before any service is there, when no
  -- service throws, the file of the process's number can be opened, and the services that `r` names
  -- and the program starts fit together: the program exits with 0 once its loop is ended; it had
  -- started exactly the servers called "tcp_server" or "iot_hub_server", where there are threads that
  -- accept, and the clients called "tcp_client", where there are threads for clients; each name stood
  -- for its server or its group; and the workers of its ids have the configured number.
  pub hub_main-hub_chosen :
      (line : CommandLine) (h : Hub L) (r : Root L) (config : IotHubConfig)
      → HubLoads line h r config
      → h.process.services ≡ hub_services
      → h.process.manager.services ≡ []
      → h.process.manager.factories ≡ []
      → Fits [] (hub_chosen r.thread_group_options r.services_config)
      → ((c : ServiceConfig) → sys.throws c ≡ false)
      → ((name : String) → sys.can_open name ≡ true)
      → (q : Hub L) × (do_main (hub_program sys line) line h ≡ some (0, q))
        × (q.process.manager.running
            ≡ h.process.manager.running ++ hub_chosen r.thread_group_options r.services_config)
        × ((s : String)
            → lookup q.process.manager s
              ≡ service_of (named s (hub_chosen r.thread_group_options r.services_config)))
        × (q.globals.worker_id ≡ config.server_number)
  unfolding init_snowflake_worker_id
  hub_main-hub_chosen line h r config loads own empty no_factories fits no_throws opens =
      let (text, doc, readable, parsed, hub, root) = loads in
      let picked : chosen sys line r h.process
          ≡ hub_chosen r.thread_group_options r.services_config =
        ap (λ ss. startable ss r.thread_group_options r.services_config) own
        ∙ startable-hub_chosen r.thread_group_options r.services_config in
      let (p, ran, runs, found, files, loop, stopped) =
        do_main-chosen sys line r h.process (text, doc, readable, parsed, root) empty no_factories
          (subst (λ cs. Fits [] cs) (sym picked) fits) no_throws opens in
      (
        around h config p,
        hub_main-do_main line h r config loads ∙ rw ran refl,
        runs ∙ ap (λ cs. h.process.manager.running ++ cs) picked,
        (λ s. found s ∙ ap (λ cs. service_of (named s cs)) picked),
        refl,
      )
