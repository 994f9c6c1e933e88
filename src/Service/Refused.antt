-- ===== src/Service/Refused.antt =====
-- The configurations that `Start` ends the program on.
use service_framework.Prelude.{
  String, refl, sym, subst, inl, inr, Bool, true, false, none, some, List, [], arith, Bool-cases,
  find, contains_of_find, ◌≡◌, ◌∙◌, ◌↔◌, ◌⊎◌, ◌∷◌, ◌++◌, string_eq, nat_eq, string_eq,
}
use service_framework.Config.{ServiceConfig}
use service_framework.Service.{
  ServiceManager, Service, single, tcp_client_group, creates, register_client, register_server,
  register_service_base, is_server, start_all, start, fatal,
}
use service_framework.Service.Entries.{
  reached, any_throws, created, named, service_of, Accepts, Fits, Holds, Holds-next, register_fits,
}
use service_framework.Service.Registry.{start-Fits, ending}

-- A service that stands under a name refuses a configuration of another type.
refused_by_single :
    (m : ServiceManager) (c d : ServiceConfig)
    → find c.service_name m.services ≡ some (single d)
    → register_service_base m c ≡ none
unfolding register_service_base register_client register_server
refused_by_single m c d there =
    ground (arith, there, contains_of_find c.service_name m.services (single d) there)

refused_by_group :
    (m : ServiceManager) (c d : ServiceConfig) (ds : List ServiceConfig)
    → find c.service_name m.services ≡ some (tcp_client_group d ds)
    → string_eq.beq c.service_type "tcp_client" ≡ false
    → register_service_base m c ≡ none
unfolding register_service_base register_server
refused_by_group m c d ds there other =
    ground (
      arith,
      there,
      other,
      contains_of_find c.service_name m.services (tcp_client_group d ds) there,
    )

refused_first :
    (m : ServiceManager) (c : ServiceConfig)
    → string_eq.beq c.service_type "tcp_client" ≡ false
    → is_server c.service_type ≡ false
    → register_service_base m c ≡ none
unfolding register_service_base
refused_first m c other unknown = rw (other, unknown) refl

-- One registration is refused, or its configuration fits.
register_cases :
    (m : ServiceManager) (c : ServiceConfig) (ds : List ServiceConfig)
    → find c.service_name m.services ≡ service_of ds
    → (register_service_base m c ≡ none) ⊎ Accepts ds c
register_cases m c [] there = elim (Bool-cases (string_eq.beq c.service_type "tcp_client")) [
  | inl client ↦ inr (inl client)
  | inr other ↦ elim (Bool-cases (is_server c.service_type)) [
    | inl server ↦ inr (inr server)
    | inr unknown ↦ inl (refused_first m c other unknown)
  ]
]
register_cases m c (d ∷ ds) there = elim (Bool-cases (string_eq.beq d.service_type "tcp_client")) [
  | inl group ↦ elim (Bool-cases (string_eq.beq c.service_type "tcp_client")) [
    | inl client ↦ inr (group, client)
    | inr other ↦ inl (refused_by_group m c d (d ∷ ds) (there ∙ rw group refl) other)
  ]
  | inr alone ↦ inl (refused_by_single m c d (there ∙ rw alone refl))
]

not_fatal : (thrown : Bool) (m : ServiceManager) → ¬ (ending thrown m ≡ fatal)
not_fatal true m h = absurd (ground (arith, h))
not_fatal false m h = absurd (ground (arith, h))

module _ (throws : ServiceConfig → Bool) where
  -- The loop at a configuration that a factory is there for.
  start_one-cases :
      (c : ServiceConfig) (cs : List ServiceConfig) (m : ServiceManager) (done : List ServiceConfig)
      → creates m.factories c ≡ true
      → Holds m.services done
      → ((next : List (String × Service))
          → Holds next (done ++ c ∷ [])
          → (start_all throws (record m { services = next; running = m.running ++ c ∷ [] }) cs
              ≡ fatal)
            ⊎ Fits (done ++ c ∷ []) (reached throws (created m.factories cs)))
      → (start_all throws m (c ∷ cs) ≡ fatal)
        ⊎ Fits done (reached throws (c ∷ created m.factories cs))
  unfolding start_all
  start_one-cases c cs m done made holds rest =
      elim (register_cases m c (named c.service_name done) (holds c.service_name)) [
        | inl refused ↦ inl (rw (made, start_all, refused) refl)
        | inr accepts ↦
            let (next, registered, changes) =
              register_fits m c (named c.service_name done) (holds c.service_name) accepts in
            elim (Bool-cases (throws c)) [
              | inl thrown ↦ inr (rw thrown (accepts, tt))
              | inr calm ↦ elim (rest next (Holds-next m.services next done c holds changes)) [
                | inl stopped ↦ inl (rw (made, start_all, registered, calm) stopped)
                | inr fits ↦ inr (rw calm (accepts, fits))
              ]
            ]
      ]

  start_all-cases :
      (cs : List ServiceConfig) (m : ServiceManager) (done : List ServiceConfig)
      → Holds m.services done
      → (start_all throws m cs ≡ fatal) ⊎ Fits done (reached throws (created m.factories cs))
  start_all-cases [] m done holds = inr tt
  start_all-cases (c ∷ cs) m done holds = elim (Bool-cases (creates m.factories c)) [
    | inl made ↦ rw made (
        start_one-cases c cs m done made holds (λ next now.
          start_all-cases cs (record m { services = next; running = m.running ++ c ∷ [] })
            (done ++ c ∷ []) now))
    | inr skipped ↦ elim (start_all-cases cs m done holds) [
      | inl stopped ↦ inl (unfold start_all in rw (skipped, start_all) stopped)
      | inr fits ↦ inr (rw skipped fits)
    ]
  ]

  pub start_stops_iff :
      (m : ServiceManager)
      → m.services ≡ []
      → (start throws m ≡ fatal)
        ↔ (¬ Fits [] (reached throws (created m.factories m.service_configs)))
  start_stops_iff m empty = (
    (λ stopped fits.
        let (m', started, found, running) = start-Fits throws m empty fits in
        absurd (
          not_fatal (any_throws throws (created m.factories m.service_configs)) m'
            (sym started ∙ stopped))),
    (λ unfit.
        elim (start_all-cases m.service_configs m []
          (λ s. subst (λ l. find s l ≡ none) (sym empty) (unfold find in refl))) [
            | inl stopped ↦ unfold start in stopped
            | inr fits ↦ absurd (unfit fits)
          ]),
  )
