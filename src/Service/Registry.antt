-- ===== src/Service/Registry.antt =====
-- Which services there are after `Start`.
use service_framework.Prelude.{
  String, refl, sym, ap, subst, inl, inr, Bool, true, false, none, some, List, [], append-nil,
  append_assoc, Bool-cases, find, ◌≡◌, ◌∙◌, ◌∷◌, ◌++◌, if◌then◌else◌, nat_eq, string_eq,
}
use service_framework.Config.{ServiceConfig}
use service_framework.Service.{
  ServiceManager, Service, creates, lookup, register_service_base, start_all, start, Ending,
  returned, threw,
}
use service_framework.Service.Entries.{
  reached, any_throws, reached-all, created, named, service_of, Accepts, Fits, Holds, Holds-next,
  register_fits,
}

abbrev pub ending : {M : Type 0} → Bool → M → Ending M
ending thrown m = if thrown then threw m else returned m

module _ (throws : ServiceConfig → Bool) where
  -- The loop `cs` from a table that has `done`, when `made` are those of `cs` that a factory is there
  -- for.
  abbrev Starts :
      List ServiceConfig → ServiceManager → List ServiceConfig → List ServiceConfig → Type 0
  Starts cs m done made =
      (m' : ServiceManager) × (start_all throws m cs ≡ ending (any_throws throws made) m')
      × Holds m'.services (done ++ reached throws made)
      × (m'.running ≡ m.running ++ reached throws made)

  start_one :
      (c : ServiceConfig) (cs : List ServiceConfig) (m : ServiceManager)
      (next : List (String × Service)) (done made : List ServiceConfig)
      → creates m.factories c ≡ true
      → register_service_base m c ≡ some (record m { services = next })
      → throws c ≡ false
      → Starts cs
          (record m { services = next; running = m.running ++ c ∷ [] })
          (done ++ c ∷ [])
          made
      → Starts (c ∷ cs) m done (c ∷ made)
  unfolding start_all
  start_one c cs m next done made made_c registered calm (m', started, holds, running) = (
    m',
    rw (made_c, start_all, registered, calm) started,
    rw calm (λ s.
        holds s
        ∙ ap (λ l. service_of (named s l)) (append_assoc done (c ∷ []) (reached throws made))),
    rw calm (running ∙ append_assoc m.running (c ∷ []) (reached throws made)),
  )

  start_thrown :
      (c : ServiceConfig) (cs : List ServiceConfig) (m : ServiceManager)
      (next : List (String × Service)) (done made : List ServiceConfig)
      → creates m.factories c ≡ true
      → register_service_base m c ≡ some (record m { services = next })
      → throws c ≡ true
      → Holds next (done ++ c ∷ [])
      → Starts (c ∷ cs) m done (c ∷ made)
  unfolding start_all
  start_thrown c cs m next done made made_c registered thrown holds = (
    record m { services = next; running = m.running ++ c ∷ [] },
    rw (made_c, start_all, registered, thrown) refl,
    rw thrown holds,
    rw thrown refl,
  )

  start_skipped :
      (c : ServiceConfig) (cs : List ServiceConfig) (m : ServiceManager)
      (done made : List ServiceConfig)
      → creates m.factories c ≡ false
      → Starts cs m done made
      → Starts (c ∷ cs) m done made
  unfolding start_all
  start_skipped c cs m done made skipped (m', started, holds, running) =
      (m', rw (skipped, start_all) started, holds, running)

  start_all-Fits :
      (cs : List ServiceConfig) (m : ServiceManager) (done : List ServiceConfig)
      → Holds m.services done
      → Fits done (reached throws (created m.factories cs))
      → Starts cs m done (created m.factories cs)
  start_all-Fits [] m done holds fits = (
    m,
    unfold start_all in refl,
    (λ s. holds s ∙ ap (λ l. service_of (named s l)) (sym (append-nil done))),
    sym (append-nil m.running),
  )
  start_all-Fits (c ∷ cs) m done holds fits = elim (Bool-cases (creates m.factories c)) [
    | inl made_c ↦
        let made = created m.factories cs in
        let now : Accepts (named c.service_name done) c
            × Fits (done ++ c ∷ []) (if throws c then [] else reached throws made) =
          rw made_c at fits in
        let (next, registered, changes) =
          register_fits m c (named c.service_name done) (holds c.service_name) now.0 in
        let holds' = Holds-next m.services next done c holds changes in
        elim (Bool-cases (throws c)) [
          | inl thrown ↦
              rw made_c (start_thrown c cs m next done made made_c registered thrown holds')
          | inr calm ↦
              let rest : Fits (done ++ c ∷ []) (reached throws made) = rw calm at (now.1) in
              rw made_c (
                start_one c cs m next done made made_c registered calm (
                  start_all-Fits cs (record m { services = next; running = m.running ++ c ∷ [] })
                    (done ++ c ∷ []) holds' rest))
        ]
    | inr skipped ↦
        let now : Fits done (reached throws (created m.factories cs)) = rw skipped at fits in
        rw skipped (
          start_skipped c cs m done (created m.factories cs) skipped
            (start_all-Fits cs m done holds now))
  ]

  pub start-Fits :
      (m : ServiceManager)
      → m.services ≡ []
      → Fits [] (reached throws (created m.factories m.service_configs))
      → (m' : ServiceManager) × (start throws m ≡ (
          if any_throws throws (created m.factories m.service_configs)
          then threw m'
          else returned m'))
        × ((s : String)
            → lookup m' s
              ≡ service_of (named s (reached throws (created m.factories m.service_configs))))
        × (m'.running ≡ m.running ++ reached throws (created m.factories m.service_configs))
  unfolding start lookup
  start-Fits m empty fits =
      start_all-Fits m.service_configs m []
        (λ s. subst (λ l. find s l ≡ none) (sym empty) (unfold find in refl)) fits

  -- The same when none throws.
  pub start-quiet :
      (m : ServiceManager)
      → m.services ≡ []
      → any_throws throws (created m.factories m.service_configs) ≡ false
      → Fits [] (created m.factories m.service_configs)
      → (m' : ServiceManager) × (start throws m ≡ returned m')
        × ((s : String)
            → lookup m' s ≡ service_of (named s (created m.factories m.service_configs)))
        × (m'.running ≡ m.running ++ created m.factories m.service_configs)
  start-quiet m empty calm fits =
      let made = created m.factories m.service_configs in
      let all = reached-all throws made calm in
      let (m', started, found, running) = start-Fits m empty (subst (Fits []) (sym all) fits) in
      (
        m',
        started ∙ rw calm refl,
        (λ s. found s ∙ ap (λ l. service_of (named s l)) all),
        running ∙ ap (λ l. m.running ++ l) all,
      )
