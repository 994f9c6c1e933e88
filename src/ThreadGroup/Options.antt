-- ===== src/ThreadGroup/Options.antt =====
-- The options that a configuration leads to.
use service_framework.Prelude.{
  ℕ, String, refl, inl, inr, Option, none, some, List, [], arith, Option-cases, bind_some, ◌≡◌, ◌∙◌,
  ◌∷◌, ◌++◌, ◌==◌, ◌>>=◌, if◌then◌else◌, nat_eq, string_eq,
}
use service_framework.Json.{Json, positive, to_size}
use service_framework.ThreadGroup.{
  ThreadType, conn_accept, conn_client, conn, fiber, db, redis, ThreadGroupOption, type_index,
  get_io_thread_size, add_option, set_conf,
}

-- The size in the last option of a type.
abbrev pub wanted : ThreadType → List ThreadGroupOption → Option ℕ
wanted type [] = none
wanted type (o ∷ os) = elim (wanted type os) [
  | none ↦ if type_index o.thread_type == type_index type then some o.thread_size else none
  | some size ↦ some size
]

module _ {J : Type 0} (json : Json J) (hardware : ℕ) where
  -- The number of threads that the configuration has under a key.
  abbrev pub asked : J → String → Option ℕ
  asked conf key = elim (json.find conf key) [
    | none ↦ none
    | some v ↦ elim (json.get_int v) [
      | none ↦ none
      | some n ↦ some (if positive n then to_size n else get_io_thread_size hardware)
    ]
  ]

  asked_absent : (conf : J) (key : String) → json.find conf key ≡ none → asked conf key ≡ none
  asked_absent conf key h = rw (h, asked) refl

  or_none : (o : Option ℕ) → (elim o [ none ↦ none | some size ↦ some size ]) ≡ o
  or_none none = refl
  or_none (some size) = refl

  wanted-append :
      (t : ThreadType) (os : List ThreadGroupOption) (o : ThreadGroupOption)
      → wanted t (os ++ o ∷ [])
        ≡ (if type_index o.thread_type == type_index t then some o.thread_size else wanted t os)
  wanted-append t [] o = refl
  wanted-append t (p ∷ os) o = ground (arith, wanted-append t os o)

  wanted-add_option :
      (conf : J) (key : String) (type t : ThreadType) (os os' : List ThreadGroupOption)
      → add_option json hardware conf key type os ≡ some os'
      → wanted t os' ≡ (
          if type_index type == type_index t
          then elim (asked conf key) [ none ↦ wanted t os | some size ↦ some size ]
          else wanted t os)
  unfolding add_option
  wanted-add_option conf key type t os os' h = elim (Option-cases (json.find conf key)) [
    | inl e ↦ ground (arith, e, h)
    | inr (v, e) ↦ elim (Option-cases (json.get_int v)) [
      | inl f ↦ absurd (ground (arith, e, f, h))
      | inr (n, f) ↦
          let size = if positive n then to_size n else get_io_thread_size hardware in
          ground
            (arith, e, f, h, wanted-append t os (record { thread_type = type; thread_size = size }))
    ]
  ]

  -- The options of the connection threads.
  conns : J → Option (List ThreadGroupOption)
  conns conf = elim (json.find conf "conn") [
    | none ↦
        add_option json hardware conf "accept" conn_accept []
        >>= add_option json hardware conf "client" conn_client
    | some v ↦ add_option json hardware conf "conn" conn []
  ]

  -- What `wanted` gives for the types in turn.
  abbrev Wants : List ThreadGroupOption → Option ℕ → Option ℕ → Option ℕ → Type 0
  Wants os accept client both =
      (wanted conn_accept os ≡ accept) × (wanted conn_client os ≡ client) × (wanted conn os ≡ both)

  abbrev Quiet : List ThreadGroupOption → Type 0
  Quiet os = (wanted fiber os ≡ none) × (wanted db os ≡ none) × (wanted redis os ≡ none)

  two_keys :
      (conf : J) (accepts os : List ThreadGroupOption)
      → add_option json hardware conf "accept" conn_accept [] ≡ some accepts
      → add_option json hardware conf "client" conn_client accepts ≡ some os
      → Wants os (asked conf "accept") (asked conf "client") none × Quiet os
  two_keys conf accepts os a c =
      let of = λ (t : ThreadType). wanted-add_option conf "accept" conn_accept t [] accepts a in
      let then_of =
        λ (t : ThreadType). wanted-add_option conf "client" conn_client t accepts os c in
      (
        (
          then_of conn_accept ∙ of conn_accept ∙ or_none (asked conf "accept"),
          ground (arith, of conn_client, then_of conn_client, or_none (asked conf "client")),
          then_of conn ∙ of conn,
        ),
        (then_of fiber ∙ of fiber, then_of db ∙ of db, then_of redis ∙ of redis),
      )

  one_key :
      (conf : J) (os : List ThreadGroupOption)
      → add_option json hardware conf "conn" conn [] ≡ some os
      → Wants os none none (asked conf "conn") × Quiet os
  one_key conf os c =
      let of = λ (t : ThreadType). wanted-add_option conf "conn" conn t [] os c in
      (
        (of conn_accept, of conn_client, of conn ∙ or_none (asked conf "conn")),
        (of fiber, of db, of redis),
      )

  later_keys :
      (conf : J) (cs fs ds os : List ThreadGroupOption) (accept client both : Option ℕ)
      → add_option json hardware conf "fiber" fiber cs ≡ some fs
      → add_option json hardware conf "db" db fs ≡ some ds
      → add_option json hardware conf "redis" redis ds ≡ some os
      → Wants cs accept client both
      → Quiet cs
      → Wants os accept client both
        × (wanted fiber os ≡ asked conf "fiber")
        × (wanted db os ≡ asked conf "db")
        × (wanted redis os ≡ asked conf "redis")
  later_keys conf cs fs ds os accept client both f d r (a, c, b) (qf, qd, qr) =
      let of = λ (t : ThreadType). wanted-add_option conf "fiber" fiber t cs fs f in
      let of_db = λ (t : ThreadType). wanted-add_option conf "db" db t fs ds d in
      let of_redis = λ (t : ThreadType). wanted-add_option conf "redis" redis t ds os r in
      (
        (
          of_redis conn_accept ∙ of_db conn_accept ∙ of conn_accept ∙ a,
          of_redis conn_client ∙ of_db conn_client ∙ of conn_client ∙ c,
          of_redis conn ∙ of_db conn ∙ of conn ∙ b,
        ),
        of_redis fiber ∙ of_db fiber ∙ ground (arith, of fiber, qf, or_none (asked conf "fiber")),
        of_redis db ∙ ground (arith, of_db db, of db, qd, or_none (asked conf "db")),
        ground (arith, of_redis redis, of_db redis, of redis, qr, or_none (asked conf "redis")),
      )

  conn_keys :
      (conf : J) (cs : List ThreadGroupOption)
      → conns conf ≡ some cs
      → Wants cs
          (elim (json.find conf "conn") [ none ↦ asked conf "accept" | some v ↦ none ])
          (elim (json.find conf "conn") [ none ↦ asked conf "client" | some v ↦ none ])
          (asked conf "conn")
        × Quiet cs
  unfolding conns
  conn_keys conf cs h = elim (Option-cases (json.find conf "conn")) [
    | inl e ↦
        let (accepts, a, c) =
          bind_some (add_option json hardware conf "accept" conn_accept [])
            (add_option json hardware conf "client" conn_client) cs (rw (e, conns) at h) in
        rw (asked_absent conf "conn" e, e) (two_keys conf accepts cs a c)
    | inr (v, e) ↦ rw e (one_key conf cs (rw (e, conns) at h))
  ]

  -- When the configuration can be read: with a "conn" key there is an option neither for accepting
  -- nor for client connections; without it each has one exactly if its key is there; fiber, db and
  -- redis threads always have one exactly if their key is there. An option's size is the key's value
  -- if that is positive and else the number of processors, or 8 if that is not known.
  pub wanted-set_conf :
      (conf : J) (options : List ThreadGroupOption)
      → set_conf json hardware conf [] ≡ some options
      → (wanted conn_accept options
          ≡ elim (json.find conf "conn") [ none ↦ asked conf "accept" | some v ↦ none ])
        × (wanted conn_client options
            ≡ elim (json.find conf "conn") [ none ↦ asked conf "client" | some v ↦ none ])
        × (wanted conn options ≡ asked conf "conn")
        × (wanted fiber options ≡ asked conf "fiber")
        × (wanted db options ≡ asked conf "db")
        × (wanted redis options ≡ asked conf "redis")
  unfolding set_conf conns
  wanted-set_conf conf options h =
      let after : List ThreadGroupOption → Option (List ThreadGroupOption) =
        λ ds. add_option json hardware conf "redis" redis ds in
      let middle : List ThreadGroupOption → Option (List ThreadGroupOption) =
        λ fs. add_option json hardware conf "db" db fs >>= after in
      let (cs, c, rest) =
        bind_some (conns conf) (λ cs. add_option json hardware conf "fiber" fiber cs >>= middle)
          options h in
      let (fs, f, rest') =
        bind_some (add_option json hardware conf "fiber" fiber cs) middle options rest in
      let (ds, d, r) = bind_some (add_option json hardware conf "db" db fs) after options rest' in
      let (wants, quiet) = conn_keys conf cs c in
      let ((a, l, b), in_fiber, in_db, in_redis) =
        later_keys conf cs fs ds options _ _ _ f d r wants quiet in
      (a, l, b, in_fiber, in_db, in_redis)
