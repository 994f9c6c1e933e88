-- ===== src/IoPool/Turns.antt =====
-- Which thread `GetNextThreadConnManager` and `GetEventBaseByRand` give.
use native.Mathlib.Nat.{mod-eq_of_lt, mod_self, mod-lt, mod-add-mod}
use service_framework.Prelude.{
  ℕ, zero, suc, refl, ap, inl, inr, Option, none, some, List, [], arith, Bool-cases, length,
  get_elem?, All, ◌+◌, ◌%◌, ◌≤◌, ◌<◌, ◌≡◌, ◌∙◌, ◌≢◌, ◌∷◌,
}
use service_framework.IoPool.Delivery.{same_base_iff}
use service_framework.IoPool.{
  IoPool, same_base, get_next_thread_conn_manager, rand_other, get_event_base_by_rand,
}

-- The index that the call after `k` calls returns.
abbrev pub turn : ℕ → IoPool → Option ℕ
turn zero pool = elim (get_next_thread_conn_manager pool) [ none ↦ none | some (i, pool') ↦ some i ]
turn (suc k) pool = elim (get_next_thread_conn_manager pool) [
  | none ↦ none
  | some (i, pool') ↦ turn k pool'
]

next_one :
    (pool : IoPool) (n : ℕ)
    → length pool.thread_conn_managers ≡ n
    → n ≡ 1
    → get_next_thread_conn_manager pool ≡ some (0, pool)
unfolding get_next_thread_conn_manager
next_one pool n size one = ground (arith, size, one)

next_many :
    (pool : IoPool) (n : ℕ)
    → length pool.thread_conn_managers ≡ n
    → 1 < n
    → pool.current_thread_id ≤ n
    → get_next_thread_conn_manager pool
      ≡ some (
        pool.current_thread_id % n,
        record pool { current_thread_id = suc (pool.current_thread_id % n) },
      )
unfolding get_next_thread_conn_manager
next_many pool n size many small =
    ground (arith, size, mod-eq_of_lt {n = pool.current_thread_id} {m = n}, mod_self n)

turns :
    (k n : ℕ) (pool : IoPool)
    → length pool.thread_conn_managers ≡ n
    → 0 < n
    → pool.current_thread_id ≤ n
    → turn k pool ≡ some ((pool.current_thread_id + k) % n)
turns k zero pool size some_thread small = absurd (omega arith)
turns zero (suc zero) pool size some_thread small =
    rw (next_one pool 1 size refl, turn) (ap some (omega arith))
turns (suc k) (suc zero) pool size some_thread small =
    rw (next_one pool 1 size refl, turn)
      (turns k 1 pool size some_thread small ∙ ap some (omega arith))
turns zero (suc (suc m)) pool size some_thread small =
    rw (next_many pool (suc (suc m)) size (omega arith) small, turn)
      (ap (λ i. some (i % suc (suc m))) (omega arith))
turns (suc k) (suc (suc m)) pool size some_thread small =
    let n = suc (suc m) in
    rw (next_many pool n size (omega arith) small, turn)
      (turns k n (record pool { current_thread_id = suc (pool.current_thread_id % n) }) size
          some_thread (mod-lt pool.current_thread_id (omega arith))
        ∙ ap some (ap (λ i. i % n) (omega arith) ∙ mod-add-mod pool.current_thread_id n (suc k)))

-- With at least one thread and a counter that is not past them, each call returns; the call after `k`
-- calls gives the thread that stands `k` places after the counter, in a circle.
turn_lem :
    (k : ℕ) (pool : IoPool)
    → 0 < length pool.thread_conn_managers
    → pool.current_thread_id ≤ length pool.thread_conn_managers
    → turn k pool ≡ some ((pool.current_thread_id + k) % length pool.thread_conn_managers)
turn_lem k pool some_thread small =
    turns k (length pool.thread_conn_managers) pool refl some_thread small

-- The random numbers are all numbers of threads.
abbrev pub InRange : List ℕ → List ℕ → Type 0
InRange evbs rand = All (λ r. r < length evbs) rand

get_elem?_lt : (evbs : List ℕ) (r : ℕ) → r < length evbs → (evb : ℕ) × (get_elem? evbs r ≡ some evb)
get_elem?_lt [] r h = absurd (omega arith)
get_elem?_lt (e ∷ es) zero h = (e, refl)
get_elem?_lt (e ∷ es) (suc r) h = get_elem?_lt es r (omega arith)

-- `evb` is the event base of a thread, and another one than the caller's.
abbrev pub IsOther : List ℕ → Option ℕ → ℕ → Type 0
IsOther evbs me evb = (me ≢ some evb) × (i : ℕ) × (get_elem? evbs i ≡ some evb)

rand_other-IsOther :
    (evbs : List ℕ) (me : Option ℕ) (rand : List ℕ) (j r e : ℕ)
    → InRange evbs rand
    → get_elem? rand j ≡ some r
    → get_elem? evbs r ≡ some e
    → me ≢ some e
    → (evb : ℕ) × (rand_other evbs me rand ≡ some evb) × IsOther evbs me evb
unfolding rand_other
rand_other-IsOther evbs me [] j r e range at there other = absurd (ground arith)
rand_other-IsOther evbs me (s ∷ rs) zero r e range at there other =
    let drawn : get_elem? evbs s ≡ some e = ground (arith, at, there) in
    (e, ground (arith, drawn, same_base_iff me (some e), other), (other, s, drawn))
rand_other-IsOther evbs me (s ∷ rs) (suc j) r e range at there other =
    let (evb, drawn) = get_elem?_lt evbs s range.0 in
    elim (Bool-cases (same_base me (some evb))) [
      | inr h ↦ (
        evb,
        ground (arith, drawn, h),
        (λ k. ground (arith, h, same_base_iff me (some evb), k), s, drawn),
      )
      | inl h ↦
          let (f, found, good) = rand_other-IsOther evbs me rs j r e range.1 at there other in
          (f, ground (arith, drawn, h, found), good)
    ]

-- Among several threads, when the random numbers are numbers of threads and one of them is that of
-- another event base than the caller's, the loop ends, with another thread's event base.
get_event_base_by_rand-IsOther :
    (evbs : List ℕ) (me : Option ℕ) (rand : List ℕ) (j r e : ℕ)
    → length evbs ≢ 1
    → InRange evbs rand
    → get_elem? rand j ≡ some r
    → get_elem? evbs r ≡ some e
    → me ≢ some e
    → (evb : ℕ) × (get_event_base_by_rand evbs me rand ≡ some evb) × IsOther evbs me evb
unfolding get_event_base_by_rand
get_event_base_by_rand-IsOther evbs me rand j r e many range at there other =
    let (evb, found, good) = rand_other-IsOther evbs me rand j r e range at there other in
    (evb, ground (arith, many, found), good)
