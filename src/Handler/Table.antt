-- ===== src/Handler/Table.antt =====
-- A table of connected handlers, and what one activation or close makes of it.
use mathlib.Core.Path.{fun_ext}
use service_framework.Prelude.{
  ℕ, String, sym, ap, subst, inl, inr, true, some, arith, Bool-cases, find, ◌≡◌, ◌⊎◌, ◌==◌, nat_eq,
  string_eq,
}
use service_framework.Ids.{low_part}
use service_framework.Conn.{ConnManager, on_connection_closed}
use service_framework.Conn.Table.{
  IsTable, Opens, find-Opens, find-on_connection_closed, on_connection_closed-IsTable,
}
use service_framework.Handler.{
  ConnHandler, conn_none, conn_connected, conn_closed, service_on_connection_closed, close,
}
use service_framework.Handler.Life.{NetThread, put, after}

-- The table has a pipeline exactly under the id of its handler, and exactly while that is connected.
pub record IsRegistered (t : NetThread) : Type 0 where
  pub table : IsTable t.manager
  pub served : (p : ℕ) → (t.handlers p).has_service ≡ true
  pub listed :
      (k p : ℕ)
      → find k t.manager.pipelines ≡ some p
      → ((t.handlers p).conn_state ≡ conn_connected) × (low_part (t.handlers p).conn_id ≡ k)
  pub held :
      (p : ℕ)
      → (t.handlers p).conn_state ≡ conn_connected
      → find (low_part (t.handlers p).conn_id) t.manager.pipelines ≡ some p

close_cases :
    (h : ConnHandler) (c : ConnManager)
    → h.has_service ≡ true
    → (close h c ≡ (h, c))
      ⊎ ((h.conn_state ≡ conn_connected)
          × (close h c ≡ (
            record h { conn_state = conn_closed; remote_address = "" },
            (on_connection_closed c h.conn_id).0,
          )))
unfolding close service_on_connection_closed
close_cases h c service = ground (arith, service)

module _ (t : NetThread) (p : ℕ) (v : IsRegistered t) where
  -- The handler of `p` and the manager after a close of a connected handler.
  abbrev shut : ConnHandler
  shut = record (t.handlers p) { conn_state = conn_closed; remote_address = "" }

  closed_listed :
      (t.handlers p).conn_state ≡ conn_connected
      → (k q : ℕ)
      → find k (on_connection_closed t.manager (t.handlers p).conn_id).0.pipelines ≡ some q
      → ((put t.handlers p shut q).conn_state ≡ conn_connected)
        × (low_part (put t.handlers p shut q).conn_id ≡ k)
  closed_listed up k q h = ground (
    arith,
    find-on_connection_closed t.manager (t.handlers p).conn_id k,
    v.listed k q,
    h,
    ap t.handlers {x = p} {y = q},
  )

  closed_held :
      (t.handlers p).conn_state ≡ conn_connected
      → (q : ℕ) → (put t.handlers p shut q).conn_state ≡ conn_connected
      → find
          (low_part (put t.handlers p shut q).conn_id)
          (on_connection_closed t.manager (t.handlers p).conn_id).0.pipelines
        ≡ some q
  closed_held up q h = elim (Bool-cases (p == q)) [
    | inl e ↦ absurd (ground (arith, e, h))
    | inr e ↦
        let up_q : (t.handlers q).conn_state ≡ conn_connected = rw e at h in
        rw e (
          ground (
            arith,
            e,
            find-on_connection_closed t.manager (t.handlers p).conn_id
                (low_part (t.handlers q).conn_id),
            v.held p up,
            v.held q up_q,
            ap (λ k. find k t.manager.pipelines) {x = low_part (t.handlers p).conn_id}
                {y = low_part (t.handlers q).conn_id},
          ))
  ]

  -- A call that changes neither the handler nor the manager.
  pub same-IsRegistered : IsRegistered (after t p (t.handlers p, t.manager))
  same-IsRegistered =
      let same : put t.handlers p (t.handlers p) ≡ t.handlers =
        fun_ext (λ q. ground (arith, ap t.handlers {x = p} {y = q})) in
      subst (λ hs. IsRegistered (record { manager = t.manager; handlers = hs })) (sym same) v

  shut-IsRegistered :
      (t.handlers p).conn_state ≡ conn_connected
      → IsRegistered (after t p (shut, (on_connection_closed t.manager (t.handlers p).conn_id).0))
  shut-IsRegistered up = record {
    table = on_connection_closed-IsTable t.manager (t.handlers p).conn_id v.table;
    served = λ q. ground (arith, v.served q, v.served p);
    listed = closed_listed up;
    held = closed_held up;
  }

  pub close-IsRegistered : IsRegistered (after t p (close (t.handlers p) t.manager))
  close-IsRegistered = elim (close_cases (t.handlers p) t.manager (v.served p)) [
    | inl e ↦ rw e same-IsRegistered
    | inr (up, e) ↦ rw e (shut-IsRegistered up)
  ]

  -- A handler that activates.
  module _ (address : String) (c' : ConnManager) (id : ℕ) (o : Opens t.manager p c' id) where
    abbrev pub opened : ConnHandler
    opened = record (t.handlers p) {
      conn_state = conn_connected;
      remote_address = address;
      conn_id = id;
    }

    opened_listed :
        (t.handlers p).conn_state ≡ conn_none
        → (k q : ℕ) → find k c'.pipelines ≡ some q
        → ((put t.handlers p opened q).conn_state ≡ conn_connected)
          × (low_part (put t.handlers p opened q).conn_id ≡ k)
    opened_listed new k q h = ground (
      arith,
      find-Opens t.manager p c' id k o,
      v.listed k q,
      h,
      ap t.handlers {x = p} {y = q},
      new,
    )

    opened_held :
        (q : ℕ)
        → (put t.handlers p opened q).conn_state ≡ conn_connected
        → find (low_part (put t.handlers p opened q).conn_id) c'.pipelines ≡ some q
    opened_held q h = elim (Bool-cases (p == q)) [
      | inl e ↦ rw e (ground (arith, e, find-Opens t.manager p c' id (low_part id) o))
      | inr e ↦
          let up_q : (t.handlers q).conn_state ≡ conn_connected = rw e at h in
          rw e (
            ground (
              arith,
              find-Opens t.manager p c' id (low_part (t.handlers q).conn_id) o,
              v.held q up_q,
              o.fresh,
              ap (λ k. find k t.manager.pipelines) {x = low_part id}
                  {y = low_part (t.handlers q).conn_id},
            ))
    ]

    pub opened-IsRegistered :
        (t.handlers p).conn_state ≡ conn_none → IsRegistered (after t p (opened, c'))
    opened-IsRegistered new = record {
      table = o.keeps_table;
      served = λ q. ground (arith, v.served q, v.served p);
      listed = opened_listed new;
      held = opened_held;
    }
