-- ===== src/Root/Boot.antt =====
-- What a program does from its configuration file on, up to the end of its main loop.
use service_framework.Prelude.{
  String, refl, sym, ap, subst, Bool, true, false, some, List, [], arith, ◌≡◌, ◌∙◌, ◌&&◌, ◌||◌, ◌∷◌,
  ◌++◌, ◌>>=◌, if◌then◌else◌,
}
use service_framework.Config.{ServiceConfig}
use service_framework.ThreadGroup.{ThreadGroupOption}
use service_framework.Service.{
  ServiceManager, ServiceFactory, creates, lookup, start, returned, register_service_factory,
  setup_service, set_thread_groups,
}
use service_framework.Service.Entries.{quiet, created, named, Fits, service_of}
use service_framework.Service.Registry.{start-quiet}
use service_framework.BaseMain.{
  CommandLine, config_file, do_main, initialize_and_run, run_and_destroy,
}
use service_framework.Root.{
  Root, load_config, initialize, register_all, register_service_factory, setup_service,
  set_thread_groups,
}
use service_framework.Root.Loading.{sections, text_of, load_config-sections}
use service_framework.Root.Factories.{is_default, registered, can_run, creates-initialize}
use service_framework.Root.Running.{
  System, Process, root_program, root_load_config, root_initialize,
}

-- Whether a program that registered `services` can start a configuration, and the configurations
-- that it can start.
abbrev pub can_start : List (String × String) → List ThreadGroupOption → ServiceConfig → Bool
can_start services options c = (is_default c || registered services c) && can_run options c

abbrev pub startable :
    List (String × String) → List ThreadGroupOption → List ServiceConfig → List ServiceConfig
startable services options [] = []
startable services options (c ∷ cs) =
    if can_start services options c
    then c ∷ startable services options cs
    else startable services options cs

created-startable :
    (fs : List ServiceFactory) (services : List (String × String))
    (options : List ThreadGroupOption) (cs : List ServiceConfig)
    → ((c : ServiceConfig) → creates fs c ≡ can_start services options c)
    → created fs cs ≡ startable services options cs
created-startable fs services options [] same = refl
created-startable fs services options (c ∷ cs) same =
    ground (arith, same c, created-startable fs services options cs same)

register_keeps :
    (m : ServiceManager) (name type : String)
    → ((register_service_factory m name type).service_configs ≡ m.service_configs)
      × ((register_service_factory m name type).services ≡ m.services)
      × ((register_service_factory m name type).running ≡ m.running)
unfolding register_service_factory
register_keeps m name type = ground arith

-- Registrations of factories leave the configurations, the services and what runs.
register_all_keeps :
    (services : List (String × String)) (m : ServiceManager)
    → ((register_all m services).service_configs ≡ m.service_configs)
      × ((register_all m services).services ≡ m.services)
      × ((register_all m services).running ≡ m.running)
register_all_keeps [] m = (refl, refl, refl)
register_all_keeps ((name, type) ∷ services) m = ground (
  arith,
  register_all_keeps services (register_service_factory m name type),
  register_keeps m name type,
)

module _ {J L : Type 0} (sys : System J L) (line : CommandLine) where
  -- The process after `Initialize`.
  abbrev pub initialized : Root L → Process L → Process L
  initialized r p =
      let (manager, stats) = initialize sys.started r p.services p.manager p.fiber_stats in
      record p { root = r; manager = manager; fiber_stats = stats }

  -- The configuration file's text and document, and the root that its sections lead to.
  abbrev pub Loads : Process L → Root L → Type 0
  Loads p r =
      (text : String) × (doc : J) × (text_of sys.read_file (config_file line) ≡ some text)
      × (sys.parse text ≡ some doc)
      × (sections sys.json sys.hardware sys.set_logger doc p.root ≡ some (true, r))

  root_loaded :
      (p : Process L) (r : Root L)
      → Loads p r
      → root_load_config sys line (config_file line) p ≡ some (true, record p { root = r })
  unfolding root_load_config
  root_loaded p r (text, doc, readable, parsed, read) =
      let loaded : load_config sys.json sys.hardware sys.set_logger sys.parse sys.read_file
            (config_file line) p.root
          ≡ some (true, r) =
        load_config-sections sys.json sys.hardware sys.set_logger sys.parse sys.read_file
          (config_file line) p.root
        ∙ rw (readable, parsed) read in
      rw (loaded, root_load_config) refl

  pub do_main-Loads :
      (p : Process L) (r : Root L)
      → Loads p r
      → do_main (root_program sys line) line p
        ≡ (run_and_destroy (root_program sys line) (initialized r p) >>= λ q. some (0, q))
  unfolding do_main initialize_and_run root_initialize
  do_main-Loads p r loads = rw (root_loaded p r loads) refl

module _ {J L : Type 0} (sys : System J L) (line : CommandLine) where
  -- The configurations that the process can start once it has read `r`.
  abbrev pub chosen : Root L → Process L → List ServiceConfig
  chosen r p = startable p.services r.thread_group_options r.services_config

  initialized-creates :
      (r : Root L) (p : Process L) (c : ServiceConfig)
      → p.manager.factories ≡ []
      → creates (initialized sys line r p).manager.factories c
        ≡ can_start p.services r.thread_group_options c
  initialized-creates r p c no_factories =
      creates-initialize sys.started r p.services p.manager p.fiber_stats c
      ∙ rw no_factories (unfold creates in refl)

  pub initialized_keeps :
      (r : Root L) (p : Process L)
      → let m = (initialized sys line r p).manager in
        (m.service_configs ≡ r.services_config)
        × (m.services ≡ p.manager.services)
        × (m.running ≡ p.manager.running)
  unfolding initialize setup_service set_thread_groups
  initialized_keeps r p = register_all_keeps p.services _

  pub initialized-created :
      (r : Root L) (p : Process L)
      → p.manager.factories ≡ []
      → let m = (initialized sys line r p).manager in
        created m.factories m.service_configs ≡ chosen r p
  initialized-created r p no_factories =
      let m = (initialized sys line r p).manager in
      ap (created m.factories) (initialized_keeps r p).0
      ∙ created-startable m.factories p.services r.thread_group_options r.services_config
          (λ c. initialized-creates r p c no_factories)

  -- What `Initialize` leaves to `Start`.
  pub initialized-start :
      (r : Root L) (p : Process L)
      → p.manager.services ≡ []
      → p.manager.factories ≡ []
      → Fits [] (chosen r p)
      → ((c : ServiceConfig) → sys.throws c ≡ false)
      → (m' : ServiceManager) × (start sys.throws (initialized sys line r p).manager ≡ returned m')
        × ((s : String) → lookup m' s ≡ service_of (named s (chosen r p)))
        × (m'.running ≡ p.manager.running ++ chosen r p)
  initialized-start r p empty no_factories fits no_throws =
      let m = (initialized sys line r p).manager in
      let (configs, services, running) = initialized_keeps r p in
      let made = initialized-created r p no_factories in
      let (m', started, found, runs) =
        start-quiet sys.throws m (services ∙ empty) (quiet sys.throws _ no_throws)
          (subst (λ cs. Fits [] cs) (sym made) fits) in
      (
        m',
        started,
        (λ s. found s ∙ ap (λ cs. service_of (named s cs)) made),
        runs ∙ ap (λ cs. m.running ++ cs) made ∙ ap (λ cs. cs ++ chosen r p) running,
      )
