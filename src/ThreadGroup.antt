-- ===== src/ThreadGroup.antt =====
-- `ThreadGroupListOption` and `ThreadGroupListManager` of baselib/net/thread_group_list_manager.{h,cc}:
-- the groups of threads that the configuration asks for, and the numbers of their threads. The threads
-- that wangle's pool reports to a new observer are a parameter: `started type size` lists their event
-- bases (any number for a thread without one).
pub mod Numbers
pub mod Options
pub mod Pools
mod Tests
use service_framework.Prelude.{
  ℕ, String, Bool, true, false, Option, none, some, List, [], leb, length, get_elem?, set,
  replicate, find, ◌∷◌, ◌++◌, ◌>>=◌, if◌then◌else◌, nat_eq, string_eq,
}
use service_framework.Json.{Json, ℤ, positive, to_size}

pub data ThreadType : Type 0 where
  normal : ThreadType
  conn_accept : ThreadType
  conn_client : ThreadType
  conn : ThreadType
  fiber : ThreadType
  db : ThreadType
  redis : ThreadType

-- The numbers of the enumeration, and `MAX`.
abbrev pub type_index : ThreadType → ℕ
type_index normal = 1
type_index conn_accept = 2
type_index conn_client = 4
type_index conn = 6
type_index fiber = 8
type_index db = 16
type_index redis = 32

abbrev pub thread_type_max : ℕ
thread_type_max = 33

pub record ThreadGroupOption : Type 0 where
  pub thread_type : ThreadType
  pub thread_size : ℕ

-- `GetIOThreadSize`, of what `hardware_concurrency` answers.
unfoldable pub get_io_thread_size : ℕ → ℕ
get_io_thread_size threads = if leb threads 0 then 8 else threads

module _ {J : Type 0} (json : Json J) (hardware : ℕ) where
  -- One `if (conf.find(key) != conf.end())` of `SetConf`; `none` is the exception of `get<int>`.
  unfoldable pub add_option :
      J → String → ThreadType → List ThreadGroupOption → Option (List ThreadGroupOption)
  add_option conf key type options = elim (json.find conf key) [
    | none ↦ some options
    | some v ↦ elim (json.get_int v) [
      | none ↦ none
      | some n ↦ some (
          options
          ++ record {
            thread_type = type;
            thread_size = if positive n then to_size n else get_io_thread_size hardware;
          }
            ∷ [])
    ]
  ]

  unfoldable pub set_conf : J → List ThreadGroupOption → Option (List ThreadGroupOption)
  set_conf conf options = do
    conns ← (elim (json.find conf "conn") [
      | none ↦ add_option conf "accept" conn_accept options >>= add_option conf "client" conn_client
      | some v ↦ add_option conf "conn" conn options
    ])
    fibers ← add_option conf "fiber" fiber conns
    dbs ← add_option conf "db" db fibers
    add_option conf "redis" redis dbs

pub data Pool : Type 0 where
  io_pool : ℕ → Pool
  cpu_pool : ℕ → Pool

pub record ThreadGroup : Type 0 where
  pub thread_pool : Pool
  pub thread_type : ThreadType
  pub thread_idxs : List ℕ

-- `ThreadData`, its group by the type.
pub record ThreadData : Type 0 where
  pub group_type : ThreadType
  pub thread_idx : ℕ
  pub evb : Option ℕ

-- `conn_thread_ids`: the thread number that the connection manager of each event base's thread got.
pub record ThreadGroupListManager : Type 0 where
  pub thread_groups : List (Option ThreadGroup)
  pub thread_datas : List ThreadData
  pub conn_thread_ids : List (ℕ × ℕ)

-- The `switch` of `MakeThreadGroup`.
unfoldable pub make_pool : ThreadType → ℕ → Option Pool
make_pool normal size = none
make_pool conn_accept size = some (io_pool size)
make_pool conn_client size = some (io_pool size)
make_pool conn size = none
make_pool fiber size = some (io_pool size)
make_pool db size = some (cpu_pool size)
make_pool redis size = some (cpu_pool size)

-- Whether the callback asks the thread for its event base.
unfoldable pub has_event_base : ThreadType → Bool
has_event_base normal = false
has_event_base conn_accept = true
has_event_base conn_client = true
has_event_base conn = false
has_event_base fiber = true
has_event_base db = false
has_event_base redis = false

-- `threadStarted` with the callback of `MakeThreadGroup`, for one thread.
unfoldable pub thread_started :
    ThreadGroupListManager → ThreadGroup → ℕ → ThreadGroupListManager × ThreadGroup
thread_started m g evb =
    let idx = length m.thread_datas in
    let io = has_event_base g.thread_type in
    (
      record m {
        thread_datas =
            m.thread_datas
            ++ record {
              group_type = g.thread_type;
              thread_idx = idx;
              evb = if io then some evb else none;
            }
              ∷ [];
        conn_thread_ids = if io then m.conn_thread_ids ++ (evb, idx) ∷ [] else m.conn_thread_ids;
      },
      record g { thread_idxs = g.thread_idxs ++ idx ∷ [] },
    )

unfoldable pub threads_started :
    ThreadGroupListManager → ThreadGroup → List ℕ → ThreadGroupListManager × ThreadGroup
threads_started m g [] = (m, g)
threads_started m g (evb ∷ evbs) = let r = thread_started m g evb in threads_started r.0 r.1 evbs

abbrev pub new_manager : ThreadGroupListManager
new_manager = record {
  thread_groups = replicate thread_type_max none;
  thread_datas = [];
  conn_thread_ids = [];
}

module _ (started : ThreadType → ℕ → List ℕ) where
  unfoldable pub make_thread_group :
      ThreadGroupListManager → ThreadType → ℕ → ThreadGroupListManager × Option ThreadGroup
  make_thread_group m type size = elim (make_pool type size) [
    | none ↦ (m, none)
    | some pool ↦
        let (m', g) =
          threads_started m (record { thread_pool = pool; thread_type = type; thread_idxs = [] })
            (started type size) in
        (m', some g)
  ]

  unfoldable pub make_groups :
      ThreadGroupListManager → List ThreadGroupOption → ThreadGroupListManager
  make_groups m [] = m
  make_groups m (o ∷ os) =
      let (m', g) = make_thread_group m o.thread_type o.thread_size in
      make_groups (record m' { thread_groups = set m'.thread_groups (type_index o.thread_type) g })
        os

  -- The constructor with `Initialize`: the manager and what `Initialize` answers.
  unfoldable pub initialize : List ThreadGroupOption → ThreadGroupListManager × Bool
  initialize [] = (new_manager, false)
  initialize (o ∷ os) = (make_groups new_manager (o ∷ os), true)

-- `thread_groups_[static_cast<size_t>(thread_type)]`
unfoldable pub get_thread_group_by_thread_type :
    ThreadGroupListManager → ThreadType → Option ThreadGroup
get_thread_group_by_thread_type m type = elim (get_elem? m.thread_groups (type_index type)) [
  | none ↦ none
  | some g ↦ g
]

unfoldable pub get_io_thread_pool_executor : ThreadGroupListManager → ThreadType → Option Pool
get_io_thread_pool_executor m type =
    if has_event_base type
    then elim (get_thread_group_by_thread_type m type) [ none ↦ none | some g ↦ some g.thread_pool ]
    else none

-- `GetEventBaseByThreadID`; `none` is an index past the vector.
unfoldable pub get_event_base_by_thread_id : ThreadGroupListManager → ℕ → Option (Option ℕ)
get_event_base_by_thread_id m idx = elim (get_elem? m.thread_datas idx) [
  | none ↦ none
  | some d ↦ some d.evb
]

-- `GetEventBaseByThreadType`; `rand` is what `rand32` draws for the number of the group's threads.
unfoldable pub get_event_base_by_thread_type :
    ThreadGroupListManager → ThreadType → (ℕ → ℕ) → Option (Option ℕ)
get_event_base_by_thread_type m type rand = elim (get_thread_group_by_thread_type m type) [
  | none ↦ some none
  | some g ↦ get_event_base_by_thread_id m (rand (length g.thread_idxs))
]
