-- ===== src/Service/Starting.antt =====
-- `ServiceManager::Start` where the `Start` of a service throws.
use service_framework.Prelude.{
  refl, sym, ap, subst, inl, inr, Bool, true, false, some, List, [], append-nil, append_assoc,
  arith, Bool-cases, Option-cases, All, ◌≡◌, ◌∙◌, ◌∷◌, ◌++◌,
}
use service_framework.Config.{ServiceConfig}
use service_framework.Service.Entries.{created}
use service_framework.Service.{
  ServiceManager, creates, register_service_base, register_client, register_server, start_all,
  start, threw,
}

-- A start of the loop `cs` that throws: some service `c` of those that can be made, where the ones
-- before it did not throw.
abbrev pub Throws :
    (ServiceConfig → Bool) → ServiceManager → List ServiceConfig → ServiceManager → Type 0
Throws throws m made m' =
    (before : List ServiceConfig) × (c : ServiceConfig) × (after : List ServiceConfig) × (made
      ≡ before ++ c ∷ after)
    × All (λ b. throws b ≡ false) before
    × (throws c ≡ true)
    × (m'.running ≡ m.running ++ before ++ c ∷ [])

Throws-now :
    (throws : ServiceConfig → Bool) (m m' : ServiceManager) (c : ServiceConfig)
    (made : List ServiceConfig)
    → throws c ≡ true
    → m'.running ≡ m.running ++ c ∷ []
    → Throws throws m (c ∷ made) m'
Throws-now throws m m' c made h runs =
    ([], c, made, refl, tt, h, runs ∙ ap (λ l. l ++ c ∷ []) (sym (append-nil m.running)))

Throws-later :
    (throws : ServiceConfig → Bool) (m n m' : ServiceManager) (c : ServiceConfig)
    (made : List ServiceConfig)
    → throws c ≡ false
    → n.running ≡ m.running ++ c ∷ []
    → Throws throws n made m'
    → Throws throws m (c ∷ made) m'
Throws-later throws m n m' c made h runs (before, d, after, parts, quiet, thrown, now) = (
  c ∷ before,
  d,
  after,
  ap (λ l. c ∷ l) parts,
  (h, quiet),
  thrown,
  now
      ∙ ap (λ l. l ++ before ++ d ∷ []) runs
      ∙ ap (λ l. l ++ d ∷ []) (append_assoc m.running (c ∷ []) before),
)

registered_keeps :
    (m n : ServiceManager) (c : ServiceConfig)
    → register_service_base m c ≡ some n
    → (n.factories ≡ m.factories) × (n.running ≡ m.running)
unfolding register_service_base register_client register_server
registered_keeps m n c h = ground (arith, h)

start_all-Throws :
    (throws : ServiceConfig → Bool) (m : ServiceManager) (cs : List ServiceConfig)
    (m' : ServiceManager)
    → start_all throws m cs ≡ threw m'
    → Throws throws m (created m.factories cs) m'
unfolding start_all
start_all-Throws throws m [] m' h = absurd (ground (arith, h))
start_all-Throws throws m (c ∷ cs) m' h = elim (Bool-cases (creates m.factories c)) [
  | inl made ↦ elim (Option-cases (register_service_base m c)) [
    | inl refused ↦ absurd (ground (arith, h, made, refused))
    | inr (n, registered) ↦
        let (factories, running) = registered_keeps m n c registered in
        let runs : n.running ++ c ∷ [] ≡ m.running ++ c ∷ [] = ap (λ l. l ++ c ∷ []) running in
        elim (Bool-cases (throws c)) [
          | inl now ↦ rw made (
              Throws-now throws m m' c (created m.factories cs) now
                (ground (arith, h, made, registered, now, running)))
          | inr later ↦
              let n' = record n { running = n.running ++ c ∷ [] } in
              rw made (
                Throws-later throws m n' m' c (created m.factories cs) later runs (
                  subst (λ fs. Throws throws n' (created fs cs) m') factories
                    (start_all-Throws throws n' cs m'
                      (ground (arith, h, made, registered, later)))))
        ]
  ]
  | inr skipped ↦ rw skipped (start_all-Throws throws m cs m' (ground (arith, h, skipped)))
]

-- When the `Start` of a service throws, exactly the services before it that can be made had been
-- started, none of which threw, and itself; those after it are not reached.
pub start-Throws :
    (throws : ServiceConfig → Bool) (m m' : ServiceManager)
    → start throws m ≡ threw m'
    → Throws throws m (created m.factories m.service_configs) m'
unfolding start
start-Throws throws m m' h = start_all-Throws throws m m.service_configs m' h
