-- ===== src/Root/Factories.antt =====
-- Which services can be started after `Initialize` of `Root`.
use service_framework.Prelude.{
  ℕ, String, refl, Bool, true, false, none, some, List, [], arith, ◌≡◌, ◌∙◌, ◌&&◌, ◌||◌, ◌∷◌, ◌++◌,
  string_eq, if◌then◌else◌, nat_eq, string_eq,
}
use service_framework.Config.{ServiceConfig}
use service_framework.Stats.{Stats}
use service_framework.ThreadGroup
use service_framework.ThreadGroup.{
  ThreadType, ThreadGroupOption, ThreadGroupListManager, Pool, conn_accept, conn_client,
  get_io_thread_pool_executor,
}
use service_framework.ThreadGroup.Options.{wanted}
use service_framework.ThreadGroup.Pools.{get_io_thread_pool_executor-initialize}
use service_framework.Service.{
  ServiceManager, ServiceFactory, creates, threads_of, register_service_factory, default_factory,
  set_thread_groups, setup_service,
}
use service_framework.Root.{Root, register_all, initialize}

-- Whether a type has threads among the options.
abbrev pub has_threads : ThreadType → List ThreadGroupOption → Bool
has_threads t options = elim (wanted t options) [ none ↦ false | some size ↦ true ]

-- Whether the type of a configuration has its threads: servers those that accept, clients their own.
abbrev pub can_run : List ThreadGroupOption → ServiceConfig → Bool
can_run options c =
    if string_eq.beq c.service_type "tcp_server"
    then has_threads conn_accept options
    else if string_eq.beq c.service_type "tcp_client"
    then has_threads conn_client options
    else if string_eq.beq c.service_type "http_server"
    then has_threads conn_accept options
    else false

-- Whether the program registered a name and a type.
abbrev pub registered : List (String × String) → ServiceConfig → Bool
registered [] c = false
registered ((name, type) ∷ services) c =
    (string_eq.beq type c.service_type && string_eq.beq name c.service_name)
    || registered services c

-- A name that stands for its type without a registration.
abbrev pub is_default : ServiceConfig → Bool
is_default c =
    (string_eq.beq "tcp_server" c.service_type && string_eq.beq "tcp_server" c.service_name)
    || (string_eq.beq "tcp_client" c.service_type && string_eq.beq "tcp_client" c.service_name)

creates-append :
    (fs gs : List ServiceFactory) (c : ServiceConfig)
    → creates (fs ++ gs) c ≡ (creates fs c || creates gs c)
unfolding creates
creates-append [] gs c = refl
creates-append (f ∷ fs) gs c = ground (arith, creates-append fs gs c)

-- Whether the threads of a type are there.
abbrev pool_there : ThreadGroupListManager → String → Bool
pool_there groups type = elim (threads_of type) [
  | none ↦ false
  | some t ↦ elim (get_io_thread_pool_executor groups t) [ none ↦ false | some pool ↦ true ]
]

creates-register :
    (m : ServiceManager) (name type : String) (c : ServiceConfig)
    → creates (register_service_factory m name type).factories c ≡ (
        creates m.factories c
        || (string_eq.beq type c.service_type
            && string_eq.beq name c.service_name
            && pool_there m.thread_groups c.service_type))
unfolding register_service_factory creates
creates-register m name type c = ground (
  arith,
  creates-append m.factories (record { factory_type = type; factory_name = name } ∷ []) c,
  string_eq.beq_iff type c.service_type,
)

groups-register :
    (m : ServiceManager) (name type : String)
    → (register_service_factory m name type).thread_groups ≡ m.thread_groups
unfolding register_service_factory
groups-register m name type = ground arith

creates-register_all :
    (services : List (String × String)) (m : ServiceManager) (c : ServiceConfig)
    → creates (register_all m services).factories c ≡ (
        creates m.factories c
        || (registered services c && pool_there m.thread_groups c.service_type))
creates-register_all [] m c = ground arith
creates-register_all ((name, type) ∷ services) m c = ground (
  arith,
  creates-register_all services (register_service_factory m name type) c,
  creates-register m name type c,
  groups-register m name type,
)

creates-default :
    (groups : ThreadGroupListManager) (t : ThreadType) (type : String) (c : ServiceConfig)
    → threads_of type ≡ some t
    → creates (default_factory groups t type) c ≡ (
        string_eq.beq type c.service_type
        && string_eq.beq type c.service_name
        && pool_there groups c.service_type)
unfolding default_factory creates
creates-default groups t type c h = ground (arith, h, string_eq.beq_iff type c.service_type)

both_and :
    (old type name type' name' there : Bool)
    → ((old || (type && name && there)) || (type' && name' && there))
      ≡ (old || (((type && name) || (type' && name')) && there))
both_and old type name type' name' there = ground arith

either_and :
    (old given registered there : Bool)
    → ((old || (given && there)) || (registered && there))
      ≡ (old || ((given || registered) && there))
either_and old given registered there = ground arith

creates-set_thread_groups :
    (m : ServiceManager) (groups : ThreadGroupListManager) (c : ServiceConfig)
    → creates (set_thread_groups m groups).factories c
      ≡ (creates m.factories c || (is_default c && pool_there groups c.service_type))
unfolding set_thread_groups
creates-set_thread_groups m groups c =
    let servers = default_factory groups conn_accept "tcp_server" in
    let clients = default_factory groups conn_client "tcp_client" in
    creates-append (m.factories ++ servers) clients c
    ∙ rw
        (
          creates-append m.factories servers c,
          creates-default groups conn_accept "tcp_server" c (unfold threads_of in refl),
          creates-default groups conn_client "tcp_client" c (unfold threads_of in refl),
        )
        (both_and (creates m.factories c) (string_eq.beq "tcp_server" c.service_type)
          (string_eq.beq "tcp_server" c.service_name) (string_eq.beq "tcp_client" c.service_type)
          (string_eq.beq "tcp_client" c.service_name) (pool_there groups c.service_type))

module _ (started : ThreadType → ℕ → List ℕ) where
  pool_there-can_run :
      (options : List ThreadGroupOption) (c : ServiceConfig)
      → pool_there (ThreadGroup.initialize started options).0 c.service_type ≡ can_run options c
  unfolding threads_of ThreadGroup.has_event_base
  pool_there-can_run options c = ground (
    arith,
    get_io_thread_pool_executor-initialize started options conn_accept,
    get_io_thread_pool_executor-initialize started options conn_client,
  )

  -- After `Initialize` a configuration can be started exactly when a factory was there for it before,
  -- or when its type is "tcp_server" or "http_server" and there are threads that accept, or it is
  -- "tcp_client" and there are threads for clients, and its name is one that the program registered
  -- for this type or, but for HTTP servers, the type itself.
  pub creates-initialize :
      {L : Type 0} (r : Root L) (services : List (String × String)) (m : ServiceManager) (g : Stats)
      (c : ServiceConfig)
      → creates (initialize started r services m g).0.factories c ≡ (
          creates m.factories c
          || ((is_default c || registered services c) && can_run r.thread_group_options c))
  unfolding initialize setup_service set_thread_groups
  creates-initialize r services m g c =
      let groups = (ThreadGroup.initialize started r.thread_group_options).0 in
      let ready = setup_service (set_thread_groups m groups) r.services_config in
      creates-register_all services ready c
      ∙ rw (creates-set_thread_groups m groups c, pool_there-can_run r.thread_group_options c)
          (either_and (creates m.factories c) (is_default c) (registered services c)
            (can_run r.thread_group_options c))
