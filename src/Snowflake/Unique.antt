-- ===== src/Snowflake/Unique.antt =====
-- The ids that the threads of one process get are all different.
use native.Mathlib.Decide.{ℕ_discrete}
use service_framework.Prelude.{
  ℕ, refl, sym, ap, inl, inr, true, false, none, some, List, [], arith, Bool-cases, beq_refl, All,
  find, ◌+◌, ◌/◌, ◌%◌, ◌^◌, ◌≤◌, ◌<◌, ◌≡◌, ◌∙◌, ◌≢◌, ◌⊎◌, ◌∷◌, if◌then◌else◌, nat_eq, string_eq,
}
use service_framework.Snowflake.{
  TimeVal, IdWorker, Globals, now_in_msec, pack_id, get_next_id, new_id_worker,
}
use service_framework.Snowflake.Fields.{pack_id_lem, pack_id_same_iff}
use service_framework.Snowflake.Sequence.{issued, get_next_id_new_millis, get_next_id_same_millis}
use service_framework.Snowflake.Process.{Workers, get_next_id_by_snowflake}

-- What one call makes of a worker: an id with some counter below 4096.
abbrev pub Issues : IdWorker → TimeVal → ℕ → Type 0
Issues w tv s =
    (get_next_id w (tv ∷ [])
      ≡ some ((issued w (now_in_msec tv) s).0, (issued w (now_in_msec tv) s).1, []))
    × (s < 4096)

-- The id that the worker gave last.
abbrev pub last_of : IdWorker → ℕ
last_of w = pack_id w.last_timestamp w.data_center_id w.worker_id w.sequence_number

-- The counter of a worker can take one more id at a time.
abbrev pub HasRoom : IdWorker → TimeVal → Type 0
HasRoom w tv =
    (w.last_timestamp ≤ now_in_msec tv)
    × (w.last_timestamp ≡ now_in_msec tv → w.sequence_number < 4095)

pub Issues-fresh :
    (worker_id number last : ℕ) (tv : TimeVal)
    → (s : ℕ) × Issues (new_id_worker worker_id number last) tv s
Issues-fresh worker_id number last tv =
    let w = new_id_worker worker_id number last in
    elim (ℕ_discrete last (now_in_msec tv)) [
      | yes same ↦ (1, (get_next_id_same_millis w tv [] same (omega arith), omega arith))
      | no other ↦ (0, (get_next_id_new_millis w tv [] other, omega arith))
    ]

pub Issues-next :
    (w : IdWorker) (tv : TimeVal)
    → HasRoom w tv
    → w.sequence_number < 4096
    → w.last_timestamp / 2 ^ 25 ≡ now_in_msec tv / 2 ^ 25
    → (s : ℕ) × Issues w tv s × (last_of w < (issued w (now_in_msec tv) s).1)
Issues-next w tv (order, room) range window =
    let before = pack_id_lem w.last_timestamp w.data_center_id w.worker_id w.sequence_number in
    let t = now_in_msec tv in
    elim (ℕ_discrete w.last_timestamp (now_in_msec tv)) [
      | yes same ↦
          let s = (w.sequence_number + 1) % 4096 in
          (
            s,
            (get_next_id_same_millis w tv [] same (omega (arith, room same)), omega arith),
            omega (arith, room same, before, pack_id_lem t w.data_center_id w.worker_id s),
          )
      | no other ↦ (
        0,
        (get_next_id_new_millis w tv [] other, omega arith),
        omega (arith, before, pack_id_lem t w.data_center_id w.worker_id 0),
      )
    ]

-- A call on a thread at a time: the thread's worker has room, or it is one of the first 32 threads;
-- and the time lies in the window, of 2^25 milliseconds.
abbrev pub IsReady : ℕ → Workers → ℕ → TimeVal → Type 0
IsReady window s thread tv =
    (now_in_msec tv / 2 ^ 25 ≡ window)
    × (find thread s.cache ≡ none → s.globals.thread_id < 32)
    × ((w : IdWorker) → find thread s.cache ≡ some w → HasRoom w tv)

-- The processes that calls lead to, each with the ids that were given, the last one first.
pub data Gives (window : ℕ) (g : Globals) : Workers → List ℕ → Type 0 where
  at_start : (s : Workers) → s ≡ record { globals = g; cache = [] } → Gives window g s []
  one_more :
      (s s' : Workers) (ids : List ℕ) (thread last id : ℕ) (tv : TimeVal)
      → Gives window g s ids
      → IsReady window s thread tv
      → get_next_id_by_snowflake s thread last (tv ∷ []) ≡ some (s', id, [])
      → Gives window g s' (id ∷ ids)

-- The worker of a thread: its number is below those of the threads to come, and it has given ids of
-- the window.
pub record IsWorker (window : ℕ) (g : Globals) (w : IdWorker) : Type 0 where
  pub numbered : w.data_center_id < g.thread_id
  pub range : w.sequence_number < 4096
  pub within : w.last_timestamp / 2 ^ 25 ≡ window

-- An id that a worker of the process has given.
abbrev pub Given : List (ℕ × IdWorker) → ℕ → Type 0
Given cache y =
    (k : ℕ) × (w : IdWorker) × (t : ℕ) × (q : ℕ) × (find k cache ≡ some w)
    × (y ≡ pack_id t w.data_center_id w.worker_id q)
    × (y ≤ last_of w)

pub record IsProcess (window : ℕ) (s : Workers) (ids : List ℕ) : Type 0 where
  pub few : s.globals.thread_id ≤ 32
  pub workers : (k : ℕ) (w : IdWorker) → find k s.cache ≡ some w → IsWorker window s.globals w
  pub apart :
      (j k : ℕ) (v w : IdWorker)
      → find j s.cache ≡ some v
      → find k s.cache ≡ some w
      → v.data_center_id ≡ w.data_center_id
      → j ≡ k
  pub given : All (Given s.cache) ids

pub some_same : {v w : IdWorker} → some v ≡ some w → v ≡ w
some_same h = cc

-- The worker `w` takes its place under `thread`, as the only change of the cache.
abbrev pub Replaces : List (ℕ × IdWorker) → List (ℕ × IdWorker) → ℕ → IdWorker → Type 0
Replaces old next thread w =
    (j : ℕ) → find j next ≡ (if nat_eq.beq thread j then some w else find j old)

-- What is asked of the worker that gives the next id: a greater id than the thread's worker had
-- given, and a number of its own.
pub record IsNext (window : ℕ) (s s' : Workers) (thread : ℕ) (w : IdWorker) : Type 0 where
  pub few : s'.globals.thread_id ≤ 32
  pub counted : s.globals.thread_id ≤ s'.globals.thread_id
  pub replaces : Replaces s.cache s'.cache thread w
  pub worker : IsWorker window s'.globals w
  pub grown :
      (v : IdWorker)
      → find thread s.cache ≡ some v
      → (v.data_center_id ≡ w.data_center_id)
        × (v.worker_id ≡ w.worker_id)
        × (last_of v < last_of w)
  pub other :
      (j : ℕ) (v : IdWorker)
      → nat_eq.beq thread j ≡ false
      → find j s.cache ≡ some v
      → v.data_center_id ≢ w.data_center_id

module _ {window : ℕ} {s s' : Workers} {ids : List ℕ} {thread : ℕ} {w : IdWorker}
    (p : IsProcess window s ids) (n : IsNext window s s' thread w) where
  next-found : (j : ℕ) → nat_eq.beq thread j ≡ true → find j s'.cache ≡ some w
  next-found j same = n.replaces j ∙ rw same refl

  next-old : (j : ℕ) → nat_eq.beq thread j ≡ false → find j s'.cache ≡ find j s.cache
  next-old j other = n.replaces j ∙ rw other refl

  -- An entry of the new cache is the new worker, or stood there before under another thread.
  entry_cases :
      (k : ℕ) (v : IdWorker)
      → find k s'.cache ≡ some v
      → ((thread ≡ k) × (v ≡ w)) ⊎ ((nat_eq.beq thread k ≡ false) × (find k s.cache ≡ some v))
  entry_cases k v there = elim (Bool-cases (nat_eq.beq thread k)) [
    | inl same ↦
        let e : some v ≡ some w = sym there ∙ next-found k same in
        inl ((nat_eq.beq_iff thread k).0 same, some_same e)
    | inr other ↦ inr (other, sym (next-old k other) ∙ there)
  ]

  next-workers : (k : ℕ) (v : IdWorker) → find k s'.cache ≡ some v → IsWorker window s'.globals v
  next-workers k v there = elim (entry_cases k v there) [
    | inl (same, e) ↦ rw e n.worker
    | inr (other, old) ↦
        let i = p.workers k v old in
        record {
          numbered = omega (arith, i.numbered, n.counted);
          range = i.range;
          within = i.within;
        }
  ]

  next-apart :
      (j k : ℕ) (u v : IdWorker)
      → find j s'.cache ≡ some u
      → find k s'.cache ≡ some v
      → u.data_center_id ≡ v.data_center_id
      → j ≡ k
  next-apart j k u v there there' same = elim (entry_cases j u there) [
    | inl (here, e) ↦ elim (entry_cases k v there') [
      | inl (here', e') ↦ sym here ∙ here'
      | inr (other', old') ↦
          absurd (n.other k v other' old' (sym same ∙ ap (λ x. x.data_center_id) e))
    ]
    | inr (other, old) ↦ elim (entry_cases k v there') [
      | inl (here', e') ↦ absurd (n.other j u other old (same ∙ ap (λ x. x.data_center_id) e'))
      | inr (other', old') ↦ p.apart j k u v old old' same
    ]
  ]

  next-Given : (y : ℕ) → Given s.cache y → Given s'.cache y
  next-Given y (k, v, t, q, there, packed, below) = elim (Bool-cases (nat_eq.beq thread k)) [
    | inl same ↦
        let e = (nat_eq.beq_iff thread k).0 same in
        let (number, server, more) = n.grown v (ap (λ j. find j s.cache) e ∙ there) in
        (
          k,
          w,
          t,
          q,
          next-found k same,
          packed ∙ rw (number, server) refl,
          omega (arith, below, more),
        )
    | inr other ↦ (k, v, t, q, next-old k other ∙ there, packed, below)
  ]

  -- The new id is none of the old ones.
  next-fresh : (y : ℕ) → Given s.cache y → y ≢ last_of w
  next-fresh y (k, v, t, q, there, packed, below) same = elim (Bool-cases (nat_eq.beq thread k)) [
    | inl here ↦
        let e = (nat_eq.beq_iff thread k).0 here in
        let (number, server, more) = n.grown v (ap (λ j. find j s.cache) e ∙ there) in
        absurd (omega (arith, below, more, same))
    | inr other ↦
        let i = p.workers k v there in
        let fields =
          (pack_id_same_iff t v.data_center_id v.worker_id q w.last_timestamp w.data_center_id
              w.worker_id w.sequence_number).0
            (sym packed ∙ same) in
        absurd (
          n.other k v other there
            (omega (arith, i.numbered, p.few, n.worker.numbered, n.few, fields.1)))
  ]

  next-All : (ys : List ℕ) → All (Given s.cache) ys → All (Given s'.cache) ys
  next-All [] h = tt
  next-All (y ∷ ys) (h, hs) = (next-Given y h, next-All ys hs)

  pub All-fresh : (ys : List ℕ) → All (Given s.cache) ys → All (λ y. y ≢ last_of w) ys
  All-fresh [] h = tt
  All-fresh (y ∷ ys) (h, hs) = (next-fresh y h, All-fresh ys hs)

  pub next-IsProcess : IsProcess window s' (last_of w ∷ ids)
  next-IsProcess = record {
    few = n.few;
    workers = next-workers;
    apart = next-apart;
    given = (
      (
        thread,
        w,
        w.last_timestamp,
        w.sequence_number,
        next-found thread (beq_refl thread),
        refl,
        omega arith,
      ),
      next-All ids p.given,
    );
  }
