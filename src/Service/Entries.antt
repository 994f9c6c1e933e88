-- ===== src/Service/Entries.antt =====
-- What configurations make of the table of services, and what one registration does.
use service_framework.Prelude.{
  String, refl, sym, ap, subst, inl, inr, Bool, true, false, Option, none, some, List, [], arith,
  Bool-cases, beq_refl, find, insert, find-insert, contains_of_none, modify, find-modify, ◌≡◌, ◌∙◌,
  ◌⊎◌, ◌||◌, ◌∷◌, ◌++◌, string_eq, if◌then◌else◌, nat_eq, string_eq,
}
use service_framework.Config.{ServiceConfig}
use service_framework.Service.{
  ServiceManager, ServiceFactory, Service, single, tcp_client_group, creates, register_client,
  register_server, register_service_base, is_server,
}

-- The configurations that a factory is there for, in their order.
abbrev pub created : List ServiceFactory → List ServiceConfig → List ServiceConfig
created fs [] = []
created fs (c ∷ cs) = if creates fs c then c ∷ created fs cs else created fs cs

-- The configurations with a name.
abbrev pub named : String → List ServiceConfig → List ServiceConfig
named s [] = []
named s (c ∷ cs) = if string_eq.beq c.service_name s then c ∷ named s cs else named s cs

-- The service that configurations with one name make: a group if they are clients.
abbrev pub service_of : List ServiceConfig → Option Service
service_of [] = none
service_of (c ∷ cs) =
    if string_eq.beq c.service_type "tcp_client"
    then some (tcp_client_group c (c ∷ cs))
    else some (single c)

abbrev pub IsClient : ServiceConfig → Type 0
IsClient c = string_eq.beq c.service_type "tcp_client" ≡ true

-- A configuration can stand with the earlier ones of its name.
abbrev pub Accepts : List ServiceConfig → ServiceConfig → Type 0
Accepts [] c = IsClient c ⊎ (is_server c.service_type ≡ true)
Accepts (d ∷ ds) c = IsClient d × IsClient c

-- The configurations `cs` can follow `done`: their types are known, and a name stands twice only
-- among clients.
abbrev pub Fits : List ServiceConfig → List ServiceConfig → Type 0
Fits done [] = Unit
Fits done (c ∷ cs) = Accepts (named c.service_name done) c × Fits (done ++ c ∷ []) cs

-- The table has what the configurations make.
abbrev pub Holds : List (String × Service) → List ServiceConfig → Type 0
Holds services done = (s : String) → find s services ≡ service_of (named s done)

named-append :
    (s : String) (done : List ServiceConfig) (c : ServiceConfig)
    → named s (done ++ c ∷ [])
      ≡ (if string_eq.beq c.service_name s then named s done ++ c ∷ [] else named s done)
named-append s [] c = refl
named-append s (d ∷ ds) c = ground (arith, named-append s ds c)

named_same :
    (done : List ServiceConfig) (c : ServiceConfig)
    → named c.service_name (done ++ c ∷ []) ≡ named c.service_name done ++ c ∷ []
named_same done c = ground (arith, named-append c.service_name done c, beq_refl c.service_name)

named_other :
    (s : String) (done : List ServiceConfig) (c : ServiceConfig)
    → string_eq.beq c.service_name s ≡ false
    → named s (done ++ c ∷ []) ≡ named s done
named_other s done c h = named-append s done c ∙ rw h refl

-- The entry of `c`'s name changes to `new`, and no other does.
abbrev pub Changes :
    List (String × Service) → List (String × Service) → String → Option Service → Type 0
Changes old next name new =
    (find name next ≡ new)
    × ((s : String) → string_eq.beq name s ≡ false → find s next ≡ find s old)

pub Holds-next :
    (old next : List (String × Service)) (done : List ServiceConfig) (c : ServiceConfig)
    → Holds old done
    → Changes old next c.service_name (service_of (named c.service_name done ++ c ∷ []))
    → Holds next (done ++ c ∷ [])
Holds-next old next done c holds (here, others) s =
    elim (Bool-cases (string_eq.beq c.service_name s)) [
      | inl same ↦
          subst (λ t. find t next ≡ service_of (named t (done ++ c ∷ [])))
            ((string_eq.beq_iff c.service_name s).0 same)
            (here ∙ ap service_of (sym (named_same done c)))
      | inr other ↦ others s other ∙ holds s ∙ ap service_of (sym (named_other s done c other))
    ]

inserted :
    (old : List (String × Service)) (name : String) (v : Service)
    → find name old ≡ none
    → Changes old (insert name v old) name (some v)
inserted old name v free = (
  find-insert name name v old free ∙ rw (beq_refl name) refl,
  λ s other. find-insert name s v old free ∙ rw other refl,
)

modified :
    (old : List (String × Service)) (name : String) (v w : Service)
    → find name old ≡ some v
    → Changes old (modify name (λ g. w) old) name (some w)
modified old name v w there = (
  ground (arith, find-modify name name (λ g. w) old, there, string_eq.beq_iff name name),
  λ s other. find-modify name s (λ g. w) old ∙ rw other refl,
)

-- What one registration does where the entry of its name is that of `ds`.
abbrev pub Registers : ServiceManager → ServiceConfig → List ServiceConfig → Type 0
Registers m c ds =
    (next : List (String × Service)) × (register_service_base m c
      ≡ some (record m { services = next }))
    × Changes m.services next c.service_name (service_of (ds ++ c ∷ []))

register_first_client :
    (m : ServiceManager) (c : ServiceConfig)
    → find c.service_name m.services ≡ none
    → IsClient c
    → Registers m c []
unfolding register_service_base register_client
register_first_client m c free client =
    let (here, others) = inserted m.services c.service_name (tcp_client_group c (c ∷ [])) free in
    (
      insert c.service_name (tcp_client_group c (c ∷ [])) m.services,
      rw (client, register_client, free) refl,
      (here ∙ rw client refl, others),
    )

register_first_server :
    (m : ServiceManager) (c : ServiceConfig)
    → find c.service_name m.services ≡ none
    → string_eq.beq c.service_type "tcp_client" ≡ false
    → is_server c.service_type ≡ true
    → Registers m c []
unfolding register_service_base register_server
register_first_server m c free other server =
    let (here, others) = inserted m.services c.service_name (single c) free in
    (
      insert c.service_name (single c) m.services,
      rw (other, server, contains_of_none c.service_name m.services free) refl,
      (here ∙ rw other refl, others),
    )

register_next_client :
    (m : ServiceManager) (c d : ServiceConfig) (ds : List ServiceConfig)
    → find c.service_name m.services ≡ service_of (d ∷ ds)
    → IsClient d
    → IsClient c
    → Registers m c (d ∷ ds)
unfolding register_service_base register_client
register_next_client m c d ds there client_d client =
    let found : find c.service_name m.services ≡ some (tcp_client_group d (d ∷ ds)) =
      there ∙ rw client_d refl in
    let same : string_eq.beq c.service_type d.service_type ≡ true =
      (string_eq.beq_iff c.service_type d.service_type).1 (
        (string_eq.beq_iff c.service_type "tcp_client").0 client
        ∙ sym ((string_eq.beq_iff d.service_type "tcp_client").0 client_d)) in
    let group = tcp_client_group d ((d ∷ ds) ++ c ∷ []) in
    let (here, others) =
      modified m.services c.service_name (tcp_client_group d (d ∷ ds)) group found in
    (
      modify c.service_name (λ g. group) m.services,
      rw (client, register_client, found, same) refl,
      (here ∙ rw client_d refl, others),
    )

pub register_fits :
    (m : ServiceManager) (c : ServiceConfig) (ds : List ServiceConfig)
    → find c.service_name m.services ≡ service_of ds
    → Accepts ds c
    → Registers m c ds
register_fits m c [] there fits = elim (Bool-cases (string_eq.beq c.service_type "tcp_client")) [
  | inl client ↦ register_first_client m c there client
  | inr other ↦ register_first_server m c there other (ground (arith, other, fits))
]
register_fits m c (d ∷ ds) there (client_d, client) =
    register_next_client m c d ds there client_d client

-- The services that `Start` comes to: up to the first that throws, which is one of them.
abbrev pub reached : (ServiceConfig → Bool) → List ServiceConfig → List ServiceConfig
reached throws [] = []
reached throws (c ∷ cs) = c ∷ (if throws c then [] else reached throws cs)

abbrev pub any_throws : (ServiceConfig → Bool) → List ServiceConfig → Bool
any_throws throws [] = false
any_throws throws (c ∷ cs) = throws c || any_throws throws cs

pub reached-all :
    (throws : ServiceConfig → Bool) (cs : List ServiceConfig)
    → any_throws throws cs ≡ false
    → reached throws cs ≡ cs
reached-all throws [] h = refl
reached-all throws (c ∷ cs) h = ground (arith, h, reached-all throws cs)

pub quiet :
    (throws : ServiceConfig → Bool) (cs : List ServiceConfig)
    → ((c : ServiceConfig) → throws c ≡ false)
    → any_throws throws cs ≡ false
quiet throws [] h = refl
quiet throws (c ∷ cs) h = rw (h c) (quiet throws cs h)
