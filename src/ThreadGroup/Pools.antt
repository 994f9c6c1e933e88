-- ===== src/ThreadGroup/Pools.antt =====
-- The thread pools that the options lead to.
use service_framework.Prelude.{
  ℕ, zero, suc, refl, ap, inl, inr, true, Option, none, some, List, [], arith, Option-cases, length,
  get_elem?, set, length-set, ◌≤◌, ◌<◌, ◌≡◌, ◌∙◌, ◌∷◌, ◌==◌, if◌then◌else◌,
}
use service_framework.ThreadGroup.Options.{wanted}
use service_framework.ThreadGroup.{
  ThreadType, normal, conn_accept, conn_client, conn, fiber, db, redis, Pool, io_pool,
  thread_type_max, ThreadGroupOption, ThreadGroup, ThreadGroupListManager, type_index,
  has_event_base, thread_started, threads_started, make_pool, make_thread_group, make_groups,
  initialize, new_manager, get_thread_group_by_thread_type, get_io_thread_pool_executor,
}

abbrev pool_of : Option ThreadGroup → Option Pool
pool_of none = none
pool_of (some g) = some g.thread_pool

abbrev pool_at : ThreadGroupListManager → ThreadType → Option Pool
pool_at m type = pool_of (get_thread_group_by_thread_type m type)

threads_started_keeps :
    (evbs : List ℕ) (m : ThreadGroupListManager) (g : ThreadGroup)
    → ((threads_started m g evbs).0.thread_groups ≡ m.thread_groups)
      × ((threads_started m g evbs).1.thread_pool ≡ g.thread_pool)
unfolding threads_started thread_started
threads_started_keeps [] m g = (refl, refl)
threads_started_keeps (evb ∷ evbs) m g = threads_started_keeps evbs _ _

set_group :
    (gs : List (Option ThreadGroup)) (i j : ℕ) (g : Option ThreadGroup)
    → i < length gs
    → get_elem? (set gs i g) j ≡ (if i == j then some g else get_elem? gs j)
set_group [] i j g h = absurd (omega arith)
set_group (x ∷ gs) zero zero g h = refl
set_group (x ∷ gs) zero (suc j) g h = ground arith
set_group (x ∷ gs) (suc i) zero g h = ground arith
set_group (x ∷ gs) (suc i) (suc j) g h = set_group gs i j g (omega arith) ∙ ground arith

type_index-lt : (type : ThreadType) → type_index type < thread_type_max
type_index-lt normal = omega arith
type_index-lt conn_accept = omega arith
type_index-lt conn_client = omega arith
type_index-lt conn = omega arith
type_index-lt fiber = omega arith
type_index-lt db = omega arith
type_index-lt redis = omega arith

make_pool_same :
    (s t : ThreadType) (size : ℕ)
    → type_index s ≡ type_index t
    → make_pool s size ≡ make_pool t size
unfolding make_pool
make_pool_same s t size h = ground (arith, h)

pool_at-set :
    (m : ThreadGroupListManager) (s t : ThreadType) (g : Option ThreadGroup)
    → thread_type_max ≤ length m.thread_groups
    → pool_at (record m { thread_groups = set m.thread_groups (type_index s) g }) t
      ≡ (if type_index s == type_index t then pool_of g else pool_at m t)
unfolding get_thread_group_by_thread_type
pool_at-set m s t g room = ground (
  arith,
  set_group m.thread_groups (type_index s) (type_index t) g (omega (arith, room, type_index-lt s)),
)

pool_at_groups :
    (m n : ThreadGroupListManager) (t : ThreadType)
    → m.thread_groups ≡ n.thread_groups
    → pool_at m t ≡ pool_at n t
unfolding get_thread_group_by_thread_type
pool_at_groups m n t h = rw h refl

pool_at_new : (t : ThreadType) → pool_at new_manager t ≡ none
unfolding get_thread_group_by_thread_type
pool_at_new normal = refl
pool_at_new conn_accept = refl
pool_at_new conn_client = refl
pool_at_new conn = refl
pool_at_new fiber = refl
pool_at_new db = refl
pool_at_new redis = refl

executor_pool :
    (m : ThreadGroupListManager) (t : ThreadType)
    → get_io_thread_pool_executor m t ≡ (if has_event_base t then pool_at m t else none)
unfolding get_io_thread_pool_executor
executor_pool m t = ground arith

io_types :
    (t : ThreadType) (size : ℕ) → has_event_base t ≡ true → make_pool t size ≡ some (io_pool size)
unfolding has_event_base make_pool
io_types t size h = ground arith

from_new :
    (t : ThreadType) (w : Option ℕ)
    → (elim w [ none ↦ pool_at new_manager t | some size ↦ make_pool t size ])
      ≡ (elim w [ none ↦ none | some size ↦ make_pool t size ])
from_new t none = pool_at_new t
from_new t (some size) = refl

io_wanted :
    (t : ThreadType) (w : Option ℕ)
    → (if has_event_base t then elim w [ none ↦ none | some size ↦ make_pool t size ] else none) ≡ (
        if has_event_base t then elim w [ none ↦ none | some size ↦ some (io_pool size) ] else none)
io_wanted t none = refl
io_wanted t (some size) = ground (arith, io_types t size)

module _ (started : ThreadType → ℕ → List ℕ) where
  made :
      (m : ThreadGroupListManager) (type : ThreadType) (size : ℕ)
      → ((make_thread_group started m type size).0.thread_groups ≡ m.thread_groups)
        × (pool_of (make_thread_group started m type size).1 ≡ make_pool type size)
  unfolding make_thread_group
  made m type size = elim (Option-cases (make_pool type size)) [
    | inl e ↦ rw (e, make_thread_group) (refl, refl)
    | inr (pool, e) ↦
        let (groups, same) =
          threads_started_keeps (started type size) m
            (record { thread_pool = pool; thread_type = type; thread_idxs = [] }) in
        rw (e, make_thread_group) (groups, ap some same)
  ]

  pool_at-make_groups :
      (os : List ThreadGroupOption) (m : ThreadGroupListManager) (t : ThreadType)
      → thread_type_max ≤ length m.thread_groups
      → pool_at (make_groups started m os) t
        ≡ elim (wanted t os) [ none ↦ pool_at m t | some size ↦ make_pool t size ]
  unfolding make_groups
  pool_at-make_groups [] m t room = refl
  pool_at-make_groups (o ∷ os) m t room =
      let (m', g) = make_thread_group started m o.thread_type o.thread_size in
      let (groups, pool) = made m o.thread_type o.thread_size in
      let next : ThreadGroupListManager = record m' {
        thread_groups = set m'.thread_groups (type_index o.thread_type) g;
      } in
      let room' : thread_type_max ≤ length next.thread_groups =
        omega (
          arith,
          room,
          ap length groups,
          length-set m'.thread_groups (type_index o.thread_type) g,
        ) in
      ground (
        arith,
        pool_at-make_groups os next t room',
        pool_at-set m' o.thread_type t g (omega (arith, room, ap length groups)),
        pool_at_groups m' m t groups,
        pool,
        make_pool_same o.thread_type t o.thread_size,
      )

  -- Whatever the pools report: `GetIOThreadPoolExecutor` gives a pool for the types with event bases
  -- that have an option, with the size of the last such option, and null for every other type.
  pub get_io_thread_pool_executor-initialize :
      (options : List ThreadGroupOption) (t : ThreadType)
      → get_io_thread_pool_executor (initialize started options).0 t ≡ (
          if has_event_base t
          then elim (wanted t options) [ none ↦ none | some size ↦ some (io_pool size) ]
          else none)
  unfolding get_io_thread_pool_executor initialize
  get_io_thread_pool_executor-initialize [] t =
      executor_pool new_manager t ∙ ground (arith, pool_at_new t)
  get_io_thread_pool_executor-initialize (o ∷ os) t =
      let made = pool_at-make_groups (o ∷ os) new_manager t (omega arith) in
      executor_pool (make_groups started new_manager (o ∷ os)) t
      ∙ ap (λ p. if has_event_base t then p else none) (made ∙ from_new t (wanted t (o ∷ os)))
      ∙ io_wanted t (wanted t (o ∷ os))
