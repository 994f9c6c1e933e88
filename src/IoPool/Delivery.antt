-- ===== src/IoPool/Delivery.antt =====
-- A connection that the pool opens is reached through the id it was given.
use service_framework.Prelude.{
  ℕ, zero, suc, String, refl, ap, inl, inr, true, false, Option, none, some, List, [], arith,
  Bool-cases, length, get_elem?, All, find, find-insert, ◌+◌, ◌-◌, ◌<◌, ◌≡◌, ◌∙◌, ◌↔◌, ◌∷◌, nat_eq,
  string_eq,
}
use service_framework.Ids.{
  u32_mod, make_id, high_part, low_part, high_part-make_id, low_part-make_id,
}
use service_framework.Conn.{IoBuf}
use service_framework.Conn.Loop.{claim_total, claim-IsClaim}
use service_framework.IoThread.{
  IoThread, add_to_service, on_new_connection as thread_on_new_connection,
  dispatch_io_buf_by_conn_id as thread_dispatch_by_conn_id,
}
use service_framework.IoPool.{
  IoPool, Task, by_conn_id, same_base, open_on, on_new_connection, post, dispatch_io_buf_by_conn_id,
  run_task,
}

-- The thread can open a connection more.
pub record HasRoom (t : IoThread) : Type 0 where
  pub counter_range : t.current_conn_id < u32_mod
  pub room : length t.pipelines < u32_mod - 1

-- `t` is on the event base `evb` and has `pipeline` under `low`.
record Holds (t : IoThread) (evb low pipeline : ℕ) : Type 0 where
  on_base : t.event_base ≡ some evb
  id_range : low < u32_mod
  entered : find low t.pipelines ≡ some pipeline

thread_opens :
    (t : IoThread) (evb pipeline : ℕ) (service : String)
    → HasRoom t
    → t.event_base ≡ some evb
    → (t' : IoThread) × (low : ℕ) × (thread_on_new_connection t pipeline service ≡ some (t', low))
      × Holds t' evb low pipeline
unfolding thread_on_new_connection
thread_opens t evb pipeline service h base =
    let (r, done) = claim_total t.current_conn_id t.pipelines pipeline h.counter_range h.room in
    let c = claim-IsClaim _ _ t.pipelines pipeline r done in
    let t' = record t {
      current_conn_id = r.current;
      pipelines = r.table;
      service_pipelines = add_to_service service r.conn_id t.service_pipelines;
    } in
    (
      t',
      r.conn_id,
      rw (done, thread_on_new_connection),
      record {
        on_base = base;
        id_range = c.id_range;
        entered = ground (
          arith,
          ap (find r.conn_id) c.entered,
          find-insert r.conn_id r.conn_id pipeline t.pipelines c.was_free,
        );
      },
    )

pub same_base_iff : (x y : Option ℕ) → (same_base x y ≡ true) ↔ (x ≡ y)
unfolding same_base
same_base_iff none none = ground arith
same_base_iff none (some y) = ground arith
same_base_iff (some x) none = ground arith
same_base_iff (some x) (some y) = ground arith

-- What the loop of `OnNewConnection` has done when it returns.
abbrev IsOpened : List IoThread → ℕ → ℕ → ℕ → List IoThread × ℕ → Type 0
IsOpened ts i evb pipeline r =
    (k low : ℕ) × (t : IoThread) × (r.1 ≡ make_id (i + k) low)
    × (get_elem? r.0 k ≡ some t)
    × (k < length ts)
    × Holds t evb low pipeline

abbrev Opened : List IoThread → ℕ → ℕ → ℕ → String → Type 0
Opened ts i evb pipeline service =
    (r : List IoThread × ℕ) × (open_on i ts (some evb) pipeline service ≡ some r)
    × IsOpened ts i evb pipeline r

open_here :
    (i : ℕ) (u : IoThread) (us : List IoThread) (evb pipeline : ℕ) (service : String)
    → HasRoom u
    → same_base u.event_base (some evb) ≡ true
    → Opened (u ∷ us) i evb pipeline service
unfolding open_on
open_here i u us evb pipeline service room h =
    let base = (same_base_iff u.event_base (some evb)).0 h in
    let (u', low, done, holds) = thread_opens u evb pipeline service room base in
    (
      (u' ∷ us, make_id i low),
      rw (h, done) refl,
      (0, low, u', ap (λ k. make_id k low) (omega arith), refl, omega arith, holds),
    )

open_later :
    (i : ℕ) (u : IoThread) (us : List IoThread) (evb pipeline : ℕ) (service : String)
    → same_base u.event_base (some evb) ≡ false
    → Opened us (i + 1) evb pipeline service
    → Opened (u ∷ us) i evb pipeline service
unfolding open_on
open_later i u us evb pipeline service h ((ts, id), done, (k, low, t, is_id, at, small, holds)) = (
  (u ∷ ts, id),
  rw (h, done) refl,
  (suc k, low, t, is_id ∙ ap (λ k. make_id k low) (omega arith), at, omega arith, holds),
)

open_on-Opened :
    (i : ℕ) (ts : List IoThread) (evb pipeline : ℕ) (service : String) (j : ℕ) (t : IoThread)
    → All HasRoom ts
    → get_elem? ts j ≡ some t
    → t.event_base ≡ some evb
    → Opened ts i evb pipeline service
open_on-Opened i [] evb pipeline service j t room at base = absurd (ground arith)
open_on-Opened i (u ∷ us) evb pipeline service zero t room at base =
    open_here i u us evb pipeline service room.0
      ((same_base_iff u.event_base (some evb)).1 (ground arith))
open_on-Opened i (u ∷ us) evb pipeline service (suc j) t room at base =
    elim (Bool-cases (same_base u.event_base (some evb))) [
      | inl h ↦ open_here i u us evb pipeline service room.0 h
      | inr h ↦
          open_later i u us evb pipeline service h
            (open_on-Opened (i + 1) us evb pipeline service j t room.1 at base)
    ]

reaches :
    (pool : IoPool) (ts : List IoThread) (id evb pipeline k low : ℕ) (u : IoThread) (buf : IoBuf)
    → id ≡ make_id k low
    → get_elem? ts k ≡ some u
    → k < u32_mod
    → Holds u evb low pipeline
    → (dispatch_io_buf_by_conn_id (record pool { thread_conn_managers = ts }) id buf
        ≡ some ((evb, by_conn_id k low buf) ∷ []))
      × (run_task ts (by_conn_id k low buf) ≡ ((pipeline, buf) ∷ [], []))
unfolding dispatch_io_buf_by_conn_id run_task post thread_dispatch_by_conn_id
reaches pool ts id evb pipeline k low u buf is_k there small holds =
    let high : high_part id ≡ k =
      ap high_part is_k ∙ high_part-make_id k low small holds.id_range in
    let low' : low_part id ≡ low = ap low_part is_k ∙ low_part-make_id k low holds.id_range in
    (ground (arith, high, low', there, holds.on_base), ground (arith, there, holds.entered))

-- A connection opens on the event base of one of the pool's threads, each of which has room: the call
-- returns an id, and a message to that id is one closure on that event base, which writes the
-- message to the connection's pipeline and nothing else.
pub on_new_connection-delivers :
    (pool : IoPool) (evb pipeline : ℕ) (service : String) (j : ℕ) (t : IoThread) (buf : IoBuf)
    → length pool.thread_conn_managers < u32_mod
    → All HasRoom pool.thread_conn_managers
    → get_elem? pool.thread_conn_managers j ≡ some t
    → t.event_base ≡ some evb
    → (pool' : IoPool) × (id : ℕ) × (task : Task) × (on_new_connection pool
          (some evb)
          pipeline
          service
        ≡ some (pool', id))
      × (dispatch_io_buf_by_conn_id pool' id buf ≡ some ((evb, task) ∷ []))
      × (run_task pool'.thread_conn_managers task ≡ ((pipeline, buf) ∷ [], []))
unfolding on_new_connection
on_new_connection-delivers pool evb pipeline service j t buf size room at base =
    let ((ts, id), done, (k, low, u, is_id, there, small, holds)) =
      open_on-Opened 0 pool.thread_conn_managers evb pipeline service j t room at base in
    let is_k : id ≡ make_id k low = is_id ∙ ap (λ i. make_id i low) (omega arith) in
    let (posted, ran) =
      reaches pool ts id evb pipeline k low u buf is_k there (omega arith) holds in
    (
      record pool { thread_conn_managers = ts },
      id,
      by_conn_id k low buf,
      rw (done, on_new_connection) refl,
      posted,
      ran,
    )
