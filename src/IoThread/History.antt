-- ===== src/IoThread/History.antt =====
-- What one IO thread's tables hold after any history of its connections.
use service_framework.Prelude.{
  ℕ, String, refl, ap, subst, inl, inr, false, Option, none, some, List, [], arith, Bool-cases,
  Option-cases, length, All, All-append, find, insert, erase, find-insert, find-erase, member, ◌+◌,
  ◌≡◌, ◌∙◌, ◌∷◌, nat_eq, string_eq,
}
use service_framework.Conn.{IoBuf, claim}
use service_framework.Conn.Loop.{claim-IsClaim}
use service_framework.IoThread.{
  equals_pipeline, equals_server, IoThread, ServerConnInfo, new_io_thread, on_new_connection,
  on_connection_closed, on_server_register, write_to_server, dispatch_io_buf_by_server,
  find_pipeline, find_pipelines,
}
use service_framework.IoThread.Services.{
  of_service, IsIndexed, opened, on_connection_closed-IsIndexed,
}
use service_framework.IoThread.Servers.{others, on_connection_closed-others}

-- The pipeline is open under some id.
abbrev pub IsOpenIn : List (ℕ × ℕ) → ℕ → Type 0
IsOpenIn m p = (id : ℕ) × (find id m ≡ some p)

-- The entry's pipeline, if it has one, is open.
abbrev IsOpenEntry : List (ℕ × ℕ) → ServerConnInfo → Type 0
IsOpenEntry m v = (p : ℕ) → v.pipeline ≡ some p → IsOpenIn m p

module _ {A : Type 0} where
  All-map : {P Q : A → Type 0} → ((x : A) → P x → Q x) → (xs : List A) → All P xs → All Q xs
  All-map f [] h = tt
  All-map f (x ∷ xs) h = (f x h.0, All-map f xs h.1)

module _ (service_of : ℕ → String) where
  -- A thread that connections have opened on, closed on as they were opened, and registered servers
  -- on while they were open.
  pub data Reach : IoThread → Type 0 where
    made : (thread_id : ℕ) (event_base : Option ℕ) → Reach (new_io_thread thread_id event_base)
    opens :
        (t t' : IoThread) (p id : ℕ)
        → on_new_connection t p (service_of p) ≡ some (t', id)
        → Reach t
        → Reach t'
    closes :
        (t : IoThread) (id p : ℕ)
        → find_pipeline t id ≡ some p
        → Reach t
        → Reach (on_connection_closed t id p (service_of p)).0
    registers :
        (t : IoThread) (id p : ℕ) (server_name : String) (server_number : ℕ)
        → find_pipeline t id ≡ some p
        → Reach t
        → Reach (on_server_register t (some p) server_name server_number)

  record IsServing (t : IoThread) : Type 0 where
    index : IsIndexed service_of t
    servers : All (IsOpenEntry t.pipelines) t.server_conns

  -- An open pipeline stays open when another connection opens.
  entry_after_open :
      (m : List (ℕ × ℕ)) (c p : ℕ) (v : ServerConnInfo)
      → find c m ≡ none
      → IsOpenEntry m v
      → IsOpenEntry (insert c p m) v
  entry_after_open m c p v free o q at =
      let (id, there) = o q at in
      (
        id,
        ground (arith, find-insert c id p m free, there, free, ap (λ i. find i m) {x = c} {y = id}),
      )

  opens-IsServing :
      (t t' : IoThread) (p id : ℕ)
      → on_new_connection t p (service_of p) ≡ some (t', id)
      → IsServing t
      → IsServing t'
  unfolding on_new_connection
  opens-IsServing t t' p id h v =
      elim (Option-cases (claim (length t.pipelines + 1) t.current_conn_id t.pipelines p)) [
        | inl e ↦ absurd (ground (arith, h, e))
        | inr (r, e) ↦
            let c = claim-IsClaim _ _ t.pipelines p r e in
            let (free, there, index) = opened service_of t p r v.index c in
            subst IsServing (ground (arith, h, e)) (record {
              index = index;
              servers = rw c.entered (
                  All-map (λ w. entry_after_open t.pipelines r.conn_id p w c.was_free)
                    t.server_conns v.servers);
            })
      ]

  kept_entry :
      (m : List (ℕ × ℕ)) (v : ServerConnInfo) (id p : ℕ)
      → find id m ≡ some p
      → equals_pipeline v p ≡ false
      → IsOpenEntry m v
      → IsOpenEntry (erase id m) v
  unfolding equals_pipeline
  kept_entry m v id p h e o q at =
      let (k, there) = o q at in
      (k, ground (arith, find-erase id k m, there, h, e, at, ap (λ i. find i m) {x = id} {y = k}))

  -- The entries of the other pipelines are open still.
  others_open :
      (vs : List ServerConnInfo) (m : List (ℕ × ℕ)) (id p : ℕ)
      → find id m ≡ some p
      → All (IsOpenEntry m) vs
      → All (IsOpenEntry (erase id m)) (others p vs)
  others_open [] m id p h o = tt
  others_open (w ∷ vs) m id p h o = elim (Bool-cases (equals_pipeline w p)) [
    | inl e ↦ simp e (others_open vs m id p h o.1)
    | inr e ↦ simp e (kept_entry m w id p h e o.0, others_open vs m id p h o.1)
  ]

  closes-IsServing :
      (t : IoThread) (id p : ℕ)
      → find_pipeline t id ≡ some p
      → IsServing t
      → IsServing (on_connection_closed t id p (service_of p)).0
  unfolding find_pipeline on_connection_closed
  closes-IsServing t id p h v =
      let (index, rest) = on_connection_closed-IsIndexed service_of t id p v.index h in
      record {
        index = index;
        servers =
            rw (on_connection_closed-others t id p (service_of p))
              (others_open t.server_conns t.pipelines id p h v.servers);
      }

  registers-IsServing :
      (t : IoThread) (id p : ℕ) (server_name : String) (server_number : ℕ)
      → find_pipeline t id ≡ some p
      → IsServing t
      → IsServing (on_server_register t (some p) server_name server_number)
  unfolding find_pipeline find_pipelines on_server_register
  registers-IsServing t id p server_name server_number h v = record {
    index = record {
      exact = v.index.exact;
      counter_range = v.index.counter_range;
      distinct = v.index.distinct;
    };
    servers = All-append _ t.server_conns _ v.servers (λ q at. (id, h ∙ at), tt);
  }

  new-IsServing :
      (thread_id : ℕ) (event_base : Option ℕ) → IsServing (new_io_thread thread_id event_base)
  unfolding find_pipeline find_pipelines find member
  new-IsServing thread_id event_base = record {
    index = record { exact = λ s k. refl; counter_range = omega arith; distinct = tt };
    servers = tt;
  }

  Reach-IsServing : (t : IoThread) → Reach t → IsServing t
  Reach-IsServing t (made thread_id event_base) = new-IsServing thread_id event_base
  Reach-IsServing t (opens t0 t' p id h r) = opens-IsServing t0 t' p id h (Reach-IsServing t0 r)
  Reach-IsServing t (closes t0 id p h r) = closes-IsServing t0 id p h (Reach-IsServing t0 r)
  Reach-IsServing t (registers t0 id p name number h r) =
      registers-IsServing t0 id p name number h (Reach-IsServing t0 r)

  writes_open :
      (vs : List ServerConnInfo) (m : List (ℕ × ℕ)) (name : String) (number : ℕ) (buf : IoBuf)
      → All (IsOpenEntry m) vs
      → All (λ w. IsOpenIn m w.0) (write_to_server vs name number buf).1
  unfolding write_to_server
  writes_open [] m name number buf o = tt
  writes_open (v ∷ vs) m name number buf o =
      let rest = writes_open vs m name number buf o.1 in
      elim (Bool-cases (equals_server v name number)) [
        | inl e ↦ elim (Option-cases v.pipeline) [
          | inl n ↦ rw (e, n) rest
          | inr (p, at) ↦ rw (e, at) (o.0 p at, tt)
        ]
        | inr e ↦ rw e rest
      ]

  -- After any history of a thread's connections that register servers while they are open: an id is
  -- listed under a service exactly when it is open with a pipeline of that service, and a message to a
  -- server is written to pipelines that are open only.
  pub Reach-serves :
      (t : IoThread)
      → Reach t
      → ((s : String) (k : ℕ)
          → member k (find_pipelines t s) ≡ of_service service_of s (find_pipeline t k))
        × ((name : String) (number : ℕ) (buf : IoBuf)
            → All
                (λ w. (id : ℕ) × (find_pipeline t id ≡ some w.0))
                (dispatch_io_buf_by_server t name number buf).1)
  unfolding find_pipeline dispatch_io_buf_by_server
  Reach-serves t r =
      let v = Reach-IsServing t r in
      (
        v.index.exact,
        λ name number buf. writes_open t.server_conns t.pipelines name number buf v.servers,
      )
