-- ===== src/Conn/Table.antt =====
-- What the callbacks of `ThreadLocalConnManager` do to the table, for every manager.
use service_framework.Prelude.{
  ℕ, refl, ap, subst, inl, inr, true, false, none, some, [], arith, Option-cases, length, find,
  contains, insert, erase, IsMap, find-insert, find-erase, length-erase-le, insert-IsMap,
  erase-IsMap, contains-none, contains_of_none, ◌+◌, ◌-◌, ◌≤◌, ◌<◌, ◌≡◌, ◌∙◌, ◌∷◌, ◌==◌,
  if◌then◌else◌, nat_eq, string_eq,
}
use service_framework.Ids.{
  u32_mod, make_id, high_part, low_part, low_part-make_id, high_part-make_id,
}
use service_framework.Conn.{
  ConnManager, IoBuf, Claim, on_new_connection, on_connection_closed, send_io_buf_by_conn_id, claim,
}
use service_framework.Conn.Loop.{IsClaim, claim_total, claim-IsClaim}

-- Counter and thread number fit 32 bits, and no id stands twice.
pub record IsTable (c : ConnManager) : Type 0 where
  pub thread_range : c.thread_id < u32_mod
  pub counter_range : c.current_conn_id < u32_mod
  pub distinct : IsMap c.pipelines

-- `id` is a new id of the thread, and `c'` is `c` with `pipeline` under it.
pub record Opens (c : ConnManager) (pipeline : ℕ) (c' : ConnManager) (id : ℕ) : Type 0 where
  pub fresh : find (low_part id) c.pipelines ≡ none
  pub thread : high_part id ≡ c.thread_id
  pub same_thread : c'.thread_id ≡ c.thread_id
  pub entered : c'.pipelines ≡ insert (low_part id) pipeline c.pipelines
  pub keeps_table : IsTable c'

claimed :
    (c : ConnManager) (pipeline : ℕ) (r : Claim)
    → IsTable c
    → IsClaim c.pipelines pipeline r
    → Opens c pipeline
        (record c { current_conn_id = r.current; pipelines = r.table })
        (make_id c.thread_id r.conn_id)
claimed c pipeline r t k =
    let low : low_part (make_id c.thread_id r.conn_id) ≡ r.conn_id =
      low_part-make_id c.thread_id r.conn_id k.id_range in
    record {
      fresh = rw low k.was_free;
      thread = high_part-make_id c.thread_id r.conn_id t.thread_range k.id_range;
      same_thread = refl;
      entered = rw low k.entered;
      keeps_table = record {
        thread_range = t.thread_range;
        counter_range = k.current_range;
        distinct = rw k.entered (insert-IsMap r.conn_id pipeline c.pipelines k.was_free t.distinct);
      };
    }

-- With fewer than 2^32 - 1 connections open, `OnNewConnection` returns: the id is not in use, its
-- high half is the thread's number, the table gains the pipeline under the id's low half, and the
-- manager stays well formed.
pub on_new_connection-Opens :
    (c : ConnManager) (pipeline : ℕ)
    → IsTable c
    → length c.pipelines < u32_mod - 1
    → (c' : ConnManager) × (id : ℕ) × (on_new_connection c pipeline ≡ some (c', id))
      × Opens c pipeline c' id
unfolding on_new_connection
on_new_connection-Opens c pipeline t room =
    let (r, done) = claim_total c.current_conn_id c.pipelines pipeline t.counter_range room in
    (
      record c { current_conn_id = r.current; pipelines = r.table },
      make_id c.thread_id r.conn_id,
      rw (done, on_new_connection),
      claimed c pipeline r t (claim-IsClaim _ _ c.pipelines pipeline r done),
    )

-- Whenever the call returns, however full the table is.
pub Opens-of_return :
    (c : ConnManager) (pipeline : ℕ) (c' : ConnManager) (id : ℕ)
    → IsTable c
    → on_new_connection c pipeline ≡ some (c', id)
    → Opens c pipeline c' id
unfolding on_new_connection
Opens-of_return c pipeline c' id t h =
    elim (Option-cases (claim (length c.pipelines + 1) c.current_conn_id c.pipelines pipeline)) [
      | inl e ↦ absurd (ground (arith, e, h))
      | inr (r, e) ↦
          let same : ◌≡◌ {A = ConnManager × ℕ}
              (
                record c { current_conn_id = r.current; pipelines = r.table },
                make_id c.thread_id r.conn_id,
              )
              (c', id) =
            ground (arith, e, h) in
          subst (λ q. Opens c pipeline q.0 q.1) same
            (claimed c pipeline r t (claim-IsClaim _ _ c.pipelines pipeline r e))
    ]

pub Opens-of_some :
    (c : ConnManager) (pipeline : ℕ) (c' : ConnManager) (id : ℕ)
    → IsTable c
    → length c.pipelines < u32_mod - 1
    → on_new_connection c pipeline ≡ some (c', id)
    → Opens c pipeline c' id
Opens-of_some c pipeline c' id t room h = Opens-of_return c pipeline c' id t h

-- `SendIOBufByConnID` writes to the pipeline of the id's low half, and to nothing else; without one
-- it writes nothing and still answers true.
pub send_some :
    (c : ConnManager) (id pipeline : ℕ) (buf : IoBuf)
    → find (low_part id) c.pipelines ≡ some pipeline
    → send_io_buf_by_conn_id c id buf ≡ (true, (pipeline, buf) ∷ [])
unfolding send_io_buf_by_conn_id
send_some c id pipeline buf h = rw (h, send_io_buf_by_conn_id)

pub send_none :
    (c : ConnManager) (id : ℕ) (buf : IoBuf)
    → find (low_part id) c.pipelines ≡ none
    → send_io_buf_by_conn_id c id buf ≡ (true, [])
unfolding send_io_buf_by_conn_id
send_none c id buf h = rw (h, send_io_buf_by_conn_id)

-- The table of the connection that opens.
pub find-Opens :
    (c : ConnManager) (pipeline : ℕ) (c' : ConnManager) (id k : ℕ)
    → Opens c pipeline c' id
    → find k c'.pipelines ≡ (if low_part id == k then some pipeline else find k c.pipelines)
find-Opens c pipeline c' id k o =
    ap (find k) o.entered ∙ find-insert (low_part id) k pipeline c.pipelines o.fresh

-- `OnConnectionClosed` takes out the id's low half and nothing else.
pub find-on_connection_closed :
    (c : ConnManager) (id k : ℕ)
    → find k (on_connection_closed c id).0.pipelines
      ≡ (if low_part id == k then none else find k c.pipelines)
unfolding on_connection_closed contains
find-on_connection_closed c id k = ground (arith, find-erase (low_part id) k c.pipelines)

pub on_connection_closed-IsTable :
    (c : ConnManager) (id : ℕ) → IsTable c → IsTable (on_connection_closed c id).0
unfolding on_connection_closed
on_connection_closed-IsTable c id t =
    ground (arith, erase-IsMap (low_part id) c.pipelines t.distinct)

pub length-on_connection_closed :
    (c : ConnManager) (id : ℕ) → length (on_connection_closed c id).0.pipelines ≤ length c.pipelines
unfolding on_connection_closed
length-on_connection_closed c id = ground (arith, length-erase-le (low_part id) c.pipelines)

-- A connection can be closed once: the first `OnConnectionClosed` answers whether the id was in the
-- table, a second one with the same id answers false and changes nothing.
close_once :
    (c : ConnManager) (id : ℕ)
    → let (c', found) = on_connection_closed c id in
      (found ≡ contains (low_part id) c.pipelines) × (on_connection_closed c' id ≡ (c', false))
unfolding on_connection_closed
close_once c id = ground (
  arith,
  contains-none (low_part id) c.pipelines,
  find-erase (low_part id) (low_part id) c.pipelines,
  contains_of_none (low_part id) (erase (low_part id) c.pipelines),
)
