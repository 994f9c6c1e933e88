-- ===== src/Snowflake/Fresh.antt =====
-- One call more, and any calls of a process.
use service_framework.Prelude.{
  ℕ, refl, sym, subst, inl, inr, Option, none, some, List, [], arith, Option-cases, All, find,
  insert, find-insert, modify, find-modify, ◌+◌, ◌/◌, ◌%◌, ◌^◌, ◌≤◌, ◌<◌, ◌≡◌, ◌∙◌, ◌≢◌, ◌∷◌,
  nat_eq, string_eq,
}
use service_framework.Snowflake.{
  TimeVal, IdWorker, Globals, now_in_msec, get_next_id, make_thread_local_worker, new_id_worker,
}
use service_framework.Snowflake.Sequence.{issued}
use service_framework.Snowflake.Process.{
  Workers, get_id_worker_by_thread_local, get_next_id_by_snowflake,
}
use service_framework.Snowflake.Unique.{
  last_of, HasRoom, Issues-fresh, Issues-next, IsReady, Gives, at_start, one_more, IsProcess,
  IsNext, some_same, next-IsProcess, All-fresh,
}
use service_framework.Snowflake.{Clock}

-- What a call makes of a process that can give one more id.
abbrev Steps : ℕ → Workers → List ℕ → ℕ → ℕ → TimeVal → Type 0
Steps window s ids thread last tv =
    (s' : Workers) × (id : ℕ) × (get_next_id_by_snowflake s thread last (tv ∷ [])
      ≡ some (s', id, []))
    × IsProcess window s' (id ∷ ids)
    × All (λ y. y ≢ id) ids

module _ (window : ℕ) (s : Workers) (ids : List ℕ) (thread last : ℕ) (tv : TimeVal)
    (p : IsProcess window s ids) (now : now_in_msec tv / 2 ^ 25 ≡ window) where
  call_known :
      (w w' : IdWorker) (id : ℕ)
      → find thread s.cache ≡ some w
      → get_next_id w (tv ∷ []) ≡ some (w', id, [])
      → get_next_id_by_snowflake s thread last (tv ∷ [])
        ≡ some (record s { cache = modify thread (λ old. w') s.cache }, id, [])
  unfolding get_next_id_by_snowflake get_id_worker_by_thread_local
  call_known w w' id there called = ground (arith, there, called)

  call_first :
      (w' : IdWorker) (id : ℕ)
      → find thread s.cache ≡ none
      → let w = new_id_worker s.globals.worker_id s.globals.thread_id last in
        get_next_id w (tv ∷ []) ≡ some (w', id, [])
        → get_next_id_by_snowflake s thread last (tv ∷ [])
          ≡ some (
            record {
              globals = record s.globals { thread_id = (s.globals.thread_id + 1) % 2 ^ 16 };
              cache = modify thread (λ old. w') (insert thread w s.cache);
            },
            id,
            [],
          )
  unfolding get_next_id_by_snowflake get_id_worker_by_thread_local make_thread_local_worker
  call_first w' id free called = ground (arith, free, called)

  step_again :
      (w : IdWorker)
      → find thread s.cache ≡ some w
      → HasRoom w tv
      → Steps window s ids thread last tv
  step_again w there room =
      let i = p.workers thread w there in
      let (q, (called, range), more) = Issues-next w tv room i.range (i.within ∙ sym now) in
      let w' = (issued w (now_in_msec tv) q).0 in
      let s' = record s { cache = modify thread (λ old. w') s.cache } in
      let n : IsNext window s s' thread w' = record {
        few = p.few;
        counted = omega arith;
        replaces = λ j. find-modify thread j (λ old. w') s.cache ∙ rw there refl;
        worker = record { numbered = i.numbered; range = range; within = now };
        grown = λ v found. let e : v ≡ w = some_same (sym found ∙ there) in rw e (refl, refl, more);
        other = λ j v other found same.
            let e = p.apart j thread v w found there same in
            cc ((nat_eq.beq_iff thread j).1 (sym e));
      } in
      (
        s',
        last_of w',
        call_known w w' (last_of w') there called,
        next-IsProcess p n,
        All-fresh p n ids p.given,
      )

  step_first :
      find thread s.cache ≡ none → s.globals.thread_id < 32 → Steps window s ids thread last tv
  step_first free few =
      let number = s.globals.thread_id in
      let (q, (called, range)) = Issues-fresh s.globals.worker_id number last tv in
      let w = new_id_worker s.globals.worker_id number last in
      let w' = (issued w (now_in_msec tv) q).0 in
      let s' : Workers = record {
        globals = record s.globals { thread_id = (number + 1) % 2 ^ 16 };
        cache = modify thread (λ old. w') (insert thread w s.cache);
      } in
      let n : IsNext window s s' thread w' = record {
        few = omega arith;
        counted = omega arith;
        replaces = λ j. ground (
          arith,
          find-modify thread j (λ old. w') (insert thread w s.cache),
          find-insert thread thread w s.cache free,
          find-insert thread j w s.cache free,
          nat_eq.beq_iff thread j,
        );
        worker = record { numbered = omega arith; range = range; within = now };
        grown = λ v found. absurd (ground (arith, free, found));
        other =
            λ j v other found same. absurd (omega (arith, (p.workers j v found).numbered, same));
      } in
      (
        s',
        last_of w',
        call_first w' (last_of w') free called,
        next-IsProcess p n,
        All-fresh p n ids p.given,
      )

  -- Either case, by whether the thread has a worker.
  step_ready : IsReady window s thread tv → Steps window s ids thread last tv
  step_ready (within, first, again) = elim (Option-cases (find thread s.cache)) [
    | inl free ↦ step_first free (first free)
    | inr (w, there) ↦ step_again w there (again w there)
  ]

called_same :
    {s t : Workers} {i j : ℕ}
    → ◌≡◌ {A = Option (Workers × ℕ × Clock)} (some (s, i, [])) (some (t, j, []))
    → (s ≡ t) × (i ≡ j)
called_same h = (cc, cc)

Gives-IsProcess :
    {window : ℕ} {g : Globals} {s : Workers} {ids : List ℕ}
    → g.thread_id ≤ 32
    → Gives window g s ids
    → IsProcess window s ids
Gives-IsProcess few (at_start s e) = rw e (record {
  few = few;
  workers = λ k w there. absurd (unfold find in cc there);
  apart = λ j k v w there there' same. absurd (unfold find in cc there);
  given = tt;
})
Gives-IsProcess {window} few (one_more s s' ids thread last id tv before ready called) =
    let p = Gives-IsProcess few before in
    let (t, j, called', now, fresh) = step_ready window s ids thread last tv p ready.0 ready in
    let (same, same') = called_same (sym called' ∙ called) in
    subst (λ u. IsProcess window u (id ∷ ids)) same
      (subst (λ k. IsProcess window t (k ∷ ids)) same' now)

-- A process whose threads have made no more than 32 workers, after any calls within a window of 2^25
-- milliseconds, each on a thread that had its worker or was one of the first 32, at a time that is not
-- before the thread's last one and at which its counter is not used up: one more such call returns,
-- its id is none of the ids that any thread has got, and the process goes on like this.
pub get_next_id_by_snowflake-fresh :
    {window : ℕ} {g : Globals} {s : Workers} {ids : List ℕ} (thread last : ℕ) (tv : TimeVal)
    → g.thread_id ≤ 32
    → Gives window g s ids
    → IsReady window s thread tv
    → (s' : Workers) × (id : ℕ) × (get_next_id_by_snowflake s thread last (tv ∷ [])
        ≡ some (s', id, []))
      × All (λ y. y ≢ id) ids
      × Gives window g s' (id ∷ ids)
get_next_id_by_snowflake-fresh {window} {g} {s} {ids} thread last tv few before ready =
    let (s', id, called, now, fresh) =
      step_ready window s ids thread last tv (Gives-IsProcess few before) ready.0 ready in
    (s', id, called, fresh, one_more s s' ids thread last id tv before ready called)
