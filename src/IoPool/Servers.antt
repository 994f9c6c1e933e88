-- ===== src/IoPool/Servers.antt =====
-- Messages to a registered server and to every connection, through all threads.
use service_framework.Prelude.{
  ℕ, zero, suc, String, refl, ap, inl, inr, true, false, none, some, List, [], append-nil, arith,
  Bool-cases, length, get_elem?, All, ◌+◌, ◌≡◌, ◌∙◌, ◌≢◌, ◌∷◌, ◌++◌, if◌then◌else◌,
}
use service_framework.Conn.{IoBuf, Write}
use service_framework.IoThread.{
  ServerConnInfo, IoThread, write_to_server, dispatch_io_buf_by_server as thread_dispatch_by_server,
  broad_cast as thread_broad_cast,
}
use service_framework.IoPool.{
  IoPool, by_server, to_all, Posted, post, dispatch_io_buf_by_idx, dispatch_io_buf_by_server,
  cast_from, broad_cast, run_task, drain,
}

-- The thread has an event base.
abbrev pub OnBase : IoThread → Type 0
OnBase t = (evb : ℕ) × (t.event_base ≡ some evb)

-- The writes of the first thread that has the server.
abbrev pub first_server : List IoThread → String → ℕ → IoBuf → List Write
first_server [] name number buf = []
first_server (t ∷ ts) name number buf =
    if (thread_dispatch_by_server t name number buf).0
    then (thread_dispatch_by_server t name number buf).1
    else first_server ts name number buf

-- `ts` from `i` on is `us`.
abbrev From : List IoThread → ℕ → List IoThread → Type 0
From ts i us = (k : ℕ) → get_elem? ts (i + k) ≡ get_elem? us k

write_to_server_silent :
    (vs : List ServerConnInfo) (name : String) (number : ℕ) (buf : IoBuf)
    → (write_to_server vs name number buf).0 ≡ false
    → (write_to_server vs name number buf).1 ≡ []
unfolding write_to_server
write_to_server_silent [] name number buf h = refl
write_to_server_silent (v ∷ vs) name number buf h =
    ground (arith, write_to_server_silent vs name number buf)

silent :
    (t : IoThread) (name : String) (number : ℕ) (buf : IoBuf)
    → (thread_dispatch_by_server t name number buf).0 ≡ false
    → (thread_dispatch_by_server t name number buf).1 ≡ []
unfolding thread_dispatch_by_server
silent t name number buf h = write_to_server_silent t.server_conns name number buf h

run_found :
    (ts : List IoThread) (u : IoThread) (i : ℕ) (name : String) (number : ℕ) (buf : IoBuf)
    → get_elem? ts i ≡ some u
    → (thread_dispatch_by_server u name number buf).0 ≡ true
    → run_task ts (by_server i name number buf)
      ≡ ((thread_dispatch_by_server u name number buf).1, [])
unfolding run_task dispatch_io_buf_by_idx
run_found ts u i name number buf at h = rw (at, h, run_task, dispatch_io_buf_by_idx) refl

run_last :
    (ts : List IoThread) (u : IoThread) (i : ℕ) (name : String) (number : ℕ) (buf : IoBuf)
    → get_elem? ts i ≡ some u
    → get_elem? ts (i + 1) ≡ none
    → (thread_dispatch_by_server u name number buf).0 ≡ false
    → run_task ts (by_server i name number buf) ≡ ([], [])
unfolding run_task dispatch_io_buf_by_idx
run_last ts u i name number buf at next h = ground (arith, at, h, next, silent u name number buf h)

run_hop :
    (ts : List IoThread) (u v : IoThread) (i evb : ℕ) (name : String) (number : ℕ) (buf : IoBuf)
    → get_elem? ts i ≡ some u
    → get_elem? ts (i + 1) ≡ some v
    → v.event_base ≡ some evb
    → (thread_dispatch_by_server u name number buf).0 ≡ false
    → run_task ts (by_server i name number buf)
      ≡ ([], (evb, by_server (i + 1) name number buf) ∷ [])
unfolding run_task dispatch_io_buf_by_idx
run_hop ts u v i evb name number buf at next base h =
    ground (arith, at, h, next, base, silent u name number buf h)

-- One closure that posts `after`.
drain_one :
    (fuel : ℕ) (ts : List IoThread) (q : Posted) (writes rest : List Write) (after : List Posted)
    → run_task ts q.1 ≡ (writes, after)
    → drain fuel ts after ≡ some rest
    → drain (suc fuel) ts (q ∷ []) ≡ some (writes ++ rest)
unfolding drain
drain_one fuel ts q writes rest after ran later = rw (ran, later) refl

drain_done : (fuel : ℕ) (ts : List IoThread) → drain fuel ts [] ≡ some []
unfolding drain
drain_done zero ts = refl
drain_done (suc fuel) ts = refl

found_here :
    (fuel : ℕ) (ts : List IoThread) (u : IoThread) (i evb : ℕ) (name : String) (number : ℕ)
    (buf : IoBuf)
    → get_elem? ts i ≡ some u
    → (thread_dispatch_by_server u name number buf).0 ≡ true
    → drain (suc fuel) ts ((evb, by_server i name number buf) ∷ [])
      ≡ some (thread_dispatch_by_server u name number buf).1
found_here fuel ts u i evb name number buf at h =
    drain_one fuel ts (evb, by_server i name number buf) _ [] []
      (run_found ts u i name number buf at h) (drain_done fuel ts)
    ∙ ap some (append-nil _)

hops :
    (ts us : List IoThread) (u : IoThread) (i evb : ℕ) (name : String) (number : ℕ) (buf : IoBuf)
    → All OnBase us
    → From ts i (u ∷ us)
    → drain (suc (length us)) ts ((evb, by_server i name number buf) ∷ [])
      ≡ some (first_server (u ∷ us) name number buf)
hops ts [] u i evb name number buf bases from =
    let at : get_elem? ts i ≡ some u = ap (get_elem? ts) (omega arith) ∙ from 0 in
    elim (Bool-cases (thread_dispatch_by_server u name number buf).0) [
      | inl h ↦ rw h (found_here 0 ts u i evb name number buf at h)
      | inr h ↦ rw h (
          drain_one 0 ts (evb, by_server i name number buf) [] [] []
            (run_last ts u i name number buf at (from 1) h) (drain_done 0 ts))
    ]
hops ts (v ∷ us) u i evb name number buf bases from =
    let at : get_elem? ts i ≡ some u = ap (get_elem? ts) (omega arith) ∙ from 0 in
    elim (Bool-cases (thread_dispatch_by_server u name number buf).0) [
      | inl h ↦ rw h (found_here (suc (length us)) ts u i evb name number buf at h)
      | inr h ↦ rw h (
          drain_one (suc (length us)) ts (evb, by_server i name number buf) [] _
            ((bases.0.0, by_server (i + 1) name number buf) ∷ [])
            (run_hop ts u v i bases.0.0 name number buf at (from 1) bases.0.1 h)
            (hops ts us v (i + 1) bases.0.0 name number buf bases.1
              (λ k. ap (get_elem? ts) (omega arith) ∙ from (suc k))))
    ]

asks_first :
    (u : IoThread) (us : List IoThread) (turn evb : ℕ) (name : String) (number : ℕ) (buf : IoBuf)
    → u.event_base ≡ some evb
    → dispatch_io_buf_by_server
        (record { thread_conn_managers = u ∷ us; current_thread_id = turn })
        name
        number
        buf
      ≡ some ((evb, by_server 0 name number buf) ∷ [])
unfolding dispatch_io_buf_by_server
asks_first u us turn evb name number buf base = rw (base, dispatch_io_buf_by_server) refl

serves_first :
    (ts : List IoThread) (turn : ℕ) (name : String) (number : ℕ) (buf : IoBuf)
    → ts ≢ []
    → All OnBase ts
    → (queue : List Posted) × (dispatch_io_buf_by_server
          (record { thread_conn_managers = ts; current_thread_id = turn })
          name
          number
          buf
        ≡ some queue)
      × (drain (length ts) ts queue ≡ some (first_server ts name number buf))
serves_first [] turn name number buf some_thread bases = absurd (some_thread refl)
serves_first (u ∷ us) turn name number buf some_thread ((evb, base), bases) = (
  (evb, by_server 0 name number buf) ∷ [],
  asks_first u us turn evb name number buf base,
  hops (u ∷ us) us u 0 evb name number buf bases (λ k. ap (get_elem? (u ∷ us)) (omega arith)),
)

-- In a pool whose threads all have an event base, a message to a server is one closure, and the
-- closures that it leads to come to an end after at most one for each thread: together they write
-- what the first thread that has the server writes, and nothing if none has it.
pub dispatch_io_buf_by_server-first :
    (pool : IoPool) (name : String) (number : ℕ) (buf : IoBuf)
    → pool.thread_conn_managers ≢ []
    → All OnBase pool.thread_conn_managers
    → (queue : List Posted) × (dispatch_io_buf_by_server pool name number buf ≡ some queue)
      × (drain (length pool.thread_conn_managers) pool.thread_conn_managers queue
          ≡ some (first_server pool.thread_conn_managers name number buf))
dispatch_io_buf_by_server-first pool name number buf some_thread bases =
    serves_first pool.thread_conn_managers pool.current_thread_id name number buf some_thread bases

-- The writes of every thread, one after the other.
abbrev pub all_writes : List IoThread → IoBuf → List Write
all_writes [] buf = []
all_writes (t ∷ ts) buf = (thread_broad_cast t buf).1 ++ all_writes ts buf

run_cast :
    (ts : List IoThread) (u : IoThread) (i : ℕ) (buf : IoBuf)
    → get_elem? ts i ≡ some u
    → run_task ts (to_all i buf) ≡ ((thread_broad_cast u buf).1, [])
unfolding run_task
run_cast ts u i buf at = ground (arith, at)

-- A closure that posts nothing.
drain_next :
    (fuel : ℕ) (ts : List IoThread) (q : Posted) (queue : List Posted) (writes rest : List Write)
    → run_task ts q.1 ≡ (writes, [])
    → drain fuel ts queue ≡ some rest
    → drain (suc fuel) ts (q ∷ queue) ≡ some (writes ++ rest)
unfolding drain
drain_next fuel ts q queue writes rest ran later = rw (ran, append-nil queue, later) refl

casts :
    (ts us : List IoThread) (i : ℕ) (buf : IoBuf)
    → All OnBase us
    → From ts i us
    → (queue : List Posted) × (cast_from i us buf ≡ some queue)
      × (drain (length us) ts queue ≡ some (all_writes us buf))
unfolding cast_from post
casts ts [] i buf bases from = ([], refl, drain_done 0 ts)
casts ts (u ∷ us) i buf ((evb, base), bases) from =
    let (queue, done, ran) =
      casts ts us (i + 1) buf bases (λ k. ap (get_elem? ts) (omega arith) ∙ from (suc k)) in
    (
      (evb, to_all i buf) ∷ queue,
      ground (arith, base, done),
      drain_next (length us) ts (evb, to_all i buf) queue _ _
          (run_cast ts u i buf (ap (get_elem? ts) (omega arith) ∙ from 0)) ran,
    )

-- In a pool whose threads all have an event base, a broadcast is one closure for each thread, and
-- together they write what the threads' own broadcasts write, thread after thread.
broad_cast-all_writes :
    (pool : IoPool) (buf : IoBuf)
    → All OnBase pool.thread_conn_managers
    → (queue : List Posted) × (broad_cast pool buf ≡ some queue)
      × (drain (length pool.thread_conn_managers) pool.thread_conn_managers queue
          ≡ some (all_writes pool.thread_conn_managers buf))
unfolding broad_cast
broad_cast-all_writes pool buf bases =
    casts pool.thread_conn_managers pool.thread_conn_managers 0 buf bases
      (λ k. ap (get_elem? pool.thread_conn_managers) (omega arith))
