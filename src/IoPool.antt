-- ===== src/IoPool.antt =====
-- `IOThreadPoolConnManager` of baselib/net/io_thread_pool_manager.{h,cc}: the IO threads, and the
-- messages between them. `runInEventBaseThread` posts a task; what it posts is a list in the order
-- of the calls. `none` is a run of code outside its bounds: an index past the vector, a call on a
-- null event base, or a loop that does not end.
pub mod Delivery
pub mod Servers
pub mod Turns
mod Tests
use service_framework.Prelude.{
  ℕ, zero, suc, String, Bool, true, false, Option, none, some, List, [], ltb, length, get_elem?,
  set, ◌+◌, ◌-◌, ◌∷◌, ◌++◌, ◌==◌, ◌>>=◌, if◌then◌else◌,
}
use service_framework.Conn.{IoBuf, Write}
use service_framework.Ids.{u64_mod, make_id, high_part, low_part}
use service_framework.IoThread.{
  IoThread, new_io_thread, dispatch_io_buf_by_conn_id as thread_dispatch_by_conn_id,
  dispatch_io_buf_by_server as thread_dispatch_by_server, broad_cast as thread_broad_cast,
  on_new_connection as thread_on_new_connection, on_server_register as thread_on_server_register,
  on_connection_closed as thread_on_connection_closed,
}

pub record IoPool : Type 0 where
  pub thread_conn_managers : List IoThread
  pub current_thread_id : ℕ

-- A closure that `runInEventBaseThread` is given.
pub data Task : Type 0 where
  by_conn_id : ℕ → ℕ → IoBuf → Task
  by_server : ℕ → String → ℕ → IoBuf → Task
  to_all : ℕ → IoBuf → Task

-- A closure and the event base that runs it.
abbrev pub Posted : Type 0
Posted = ℕ × Task

-- The constructor, on the event bases of its executor's threads.
unfoldable pub new_threads : ℕ → List ℕ → List IoThread
new_threads i [] = []
new_threads i (evb ∷ evbs) = new_io_thread i (some evb) ∷ new_threads (i + 1) evbs

unfoldable pub new_io_pool : List ℕ → IoPool
new_io_pool evbs = record { thread_conn_managers = new_threads 0 evbs; current_thread_id = 0 }

-- Whether two pointers to event bases are equal.
unfoldable pub same_base : Option ℕ → Option ℕ → Bool
same_base none none = true
same_base none (some y) = false
same_base (some x) none = false
same_base (some x) (some y) = x == y

-- The loop of `OnNewConnection` from index `i` on.
unfoldable pub open_on : ℕ → List IoThread → Option ℕ → ℕ → String → Option (List IoThread × ℕ)
open_on i [] event_base pipeline service = some ([], u64_mod - 1)
open_on i (t ∷ ts) event_base pipeline service =
    let rest = open_on (i + 1) ts event_base pipeline service in
    if same_base t.event_base event_base
    then elim (thread_on_new_connection t pipeline service) [
      | none ↦ none
      | some (t', low) ↦ some (t' ∷ ts, make_id i low)
    ]
    else elim rest [ none ↦ none | some (ts', id) ↦ some (t ∷ ts', id) ]

-- `event_base` is that of the pipeline's transport, `service` the name that its handler gives.
unfoldable pub on_new_connection : IoPool → Option ℕ → ℕ → String → Option (IoPool × ℕ)
on_new_connection pool event_base pipeline service =
    elim (open_on 0 pool.thread_conn_managers event_base pipeline service) [
      | none ↦ none
      | some (ts, id) ↦ some (record pool { thread_conn_managers = ts }, id)
    ]

-- The loop of `OnServerRegister`.
unfoldable pub register_on : List IoThread → Option ℕ → Option ℕ → String → ℕ → List IoThread
register_on [] event_base pipeline name number = []
register_on (t ∷ ts) event_base pipeline name number =
    let rest = register_on ts event_base pipeline name number in
    if same_base t.event_base event_base
    then thread_on_server_register t pipeline name number ∷ ts
    else t ∷ rest

unfoldable pub on_server_register : IoPool → Option ℕ → Option ℕ → String → ℕ → IoPool
on_server_register pool event_base pipeline name number = record pool {
  thread_conn_managers = register_on pool.thread_conn_managers event_base pipeline name number;
}

unfoldable pub on_connection_closed : IoPool → ℕ → ℕ → String → Option (IoPool × Bool)
on_connection_closed pool conn_id pipeline service =
    elim (get_elem? pool.thread_conn_managers (high_part conn_id)) [
      | none ↦ none
      | some t ↦
          let (t', found) = thread_on_connection_closed t (low_part conn_id) pipeline service in
          some (
            record pool {
              thread_conn_managers = set pool.thread_conn_managers (high_part conn_id) t';
            },
            found,
          )
    ]

-- Posting on `evb->`, which must not be null.
unfoldable pub post : Option ℕ → Task → Option (List Posted)
post none task = none
post (some evb) task = some ((evb, task) ∷ [])

-- The closure keeps the thread's manager, here its index.
unfoldable pub dispatch_io_buf_by_conn_id : IoPool → ℕ → IoBuf → Option (List Posted)
dispatch_io_buf_by_conn_id pool conn_id buf =
    elim (get_elem? pool.thread_conn_managers (high_part conn_id)) [
      | none ↦ none
      | some t ↦ post t.event_base (by_conn_id (high_part conn_id) (low_part conn_id) buf)
    ]

-- Without a server on thread `idx` the search goes on at the next thread, if that has an event base.
unfoldable pub dispatch_io_buf_by_idx :
    List IoThread → ℕ → String → ℕ → IoBuf → List Write × List Posted
dispatch_io_buf_by_idx ts idx name number buf = elim (get_elem? ts idx) [
  | none ↦ ([], [])
  | some t ↦
      let (found, writes) = thread_dispatch_by_server t name number buf in
      if found then (writes, []) else (
        writes,
        elim (get_elem? ts (idx + 1)) [
          | none ↦ []
          | some next ↦ elim next.event_base [
            | none ↦ []
            | some evb ↦ (evb, by_server (idx + 1) name number buf) ∷ []
          ]
        ],
      )
]

unfoldable pub dispatch_io_buf_by_server : IoPool → String → ℕ → IoBuf → Option (List Posted)
dispatch_io_buf_by_server pool name number buf = elim (get_elem? pool.thread_conn_managers 0) [
  | none ↦ none
  | some t ↦ elim t.event_base [
    | none ↦ some []
    | some evb ↦ some ((evb, by_server 0 name number buf) ∷ [])
  ]
]

unfoldable pub cast_from : ℕ → List IoThread → IoBuf → Option (List Posted)
cast_from i [] buf = some []
cast_from i (t ∷ ts) buf = do
  now ← post t.event_base (to_all i buf)
  later ← cast_from (i + 1) ts buf
  some (now ++ later)

unfoldable pub broad_cast : IoPool → IoBuf → Option (List Posted)
broad_cast pool buf = cast_from 0 pool.thread_conn_managers buf

-- An event base runs a closure: what it writes, and what it posts in turn.
unfoldable pub run_task : List IoThread → Task → List Write × List Posted
run_task ts (by_conn_id idx low buf) = elim (get_elem? ts idx) [
  | none ↦ ([], [])
  | some t ↦ ((thread_dispatch_by_conn_id t low buf).1, [])
]
run_task ts (by_server idx name number buf) = dispatch_io_buf_by_idx ts idx name number buf
run_task ts (to_all idx buf) = elim (get_elem? ts idx) [
  | none ↦ ([], [])
  | some t ↦ ((thread_broad_cast t buf).1, [])
]

-- The closures run in the order they were posted, until none is left; `fuel` bounds their number.
unfoldable pub drain : ℕ → List IoThread → List Posted → Option (List Write)
drain fuel ts [] = some []
drain zero ts (q ∷ queue) = none
drain (suc fuel) ts (q ∷ queue) = do
  rest ← drain fuel ts (queue ++ (run_task ts q.1).1)
  some ((run_task ts q.1).0 ++ rest)

-- `GetNextThreadConnManager`: the index of the manager, and the new `current_thread_id_`.
unfoldable pub get_next_thread_conn_manager : IoPool → Option (ℕ × IoPool)
get_next_thread_conn_manager pool =
    let n = length pool.thread_conn_managers in
    if n == 1
    then some (0, pool)
    else (let at = if pool.current_thread_id == n then 0 else pool.current_thread_id in
        if ltb at n then some (at, record pool { current_thread_id = at + 1 }) else none)

-- `GetThreadConnManager(conn_id)`
unfoldable pub get_thread_conn_manager : IoPool → ℕ → Option IoThread
get_thread_conn_manager pool conn_id = get_elem? pool.thread_conn_managers (high_part conn_id)

-- `GetThreadConnManager()`, called on the event base `this_evb`.
unfoldable pub find_thread : List IoThread → Option ℕ → Option IoThread
find_thread [] this_evb = none
find_thread (t ∷ ts) this_evb =
    let rest = find_thread ts this_evb in if same_base this_evb t.event_base then some t else rest

-- `GetEventBaseByRand` on an executor of the event bases `evbs`, from the event base `me`: the random
-- numbers are a list, and `none` is
-- a list that ends before the loop does, or a number past the threads.
unfoldable pub rand_other : List ℕ → Option ℕ → List ℕ → Option ℕ
rand_other evbs me [] = none
rand_other evbs me (r ∷ rs) =
    let rest = rand_other evbs me rs in
    elim (get_elem? evbs r) [
      | none ↦ none
      | some evb ↦ if same_base me (some evb) then rest else some evb
    ]

unfoldable pub get_event_base_by_rand : List ℕ → Option ℕ → List ℕ → Option ℕ
get_event_base_by_rand evbs me rand =
    if length evbs == 1 then get_elem? evbs 0 else rand_other evbs me rand
