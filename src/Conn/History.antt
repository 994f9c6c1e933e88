-- ===== src/Conn/History.antt =====
-- Runs of callbacks on one thread: connections that open and close in any order.
use service_framework.Prelude.{
  ℕ, suc, refl, ap, true, false, Option, none, some, List, [], arith, beq_refl, length, find,
  length-insert, ◌+◌, ◌<◌, ◌≡◌, ◌∙◌, ◌≢◌, ◌∷◌, ◌==◌, nat_eq, string_eq,
}
use service_framework.Ids.{u32_mod, low_part}
use service_framework.Conn.{
  ConnManager, IoBuf, on_new_connection, on_connection_closed, send_io_buf_by_conn_id,
}
use service_framework.Conn.Table.{
  IsTable, on_new_connection-Opens, Opens-of_some, send_some, find-Opens, find-on_connection_closed,
  on_connection_closed-IsTable, length-on_connection_closed,
}

-- `transportActive` of a pipeline, and `close` of the connection with an id.
pub data Event : Type 0 where
  opened : ℕ → Event
  closed : ℕ → Event

unfoldable pub step : ConnManager → Event → Option ConnManager
step c (opened pipeline) = elim (on_new_connection c pipeline) [
  | none ↦ none
  | some (c', id) ↦ some c'
]
step c (closed id) = some (on_connection_closed c id).0

unfoldable pub run : ConnManager → List Event → Option ConnManager
run c [] = some c
run c (e ∷ es) = elim (step c e) [ none ↦ none | some c' ↦ run c' es ]

-- No event closes the connection with the low half `low`.
abbrev pub Leaves : ℕ → List Event → Type 0
Leaves low [] = Unit
Leaves low (opened pipeline ∷ es) = Leaves low es
Leaves low (closed id ∷ es) = (low_part id ≢ low) × Leaves low es

-- A manager that has the pipeline under `low` and has room for `n` more connections.
record Holds (low pipeline n : ℕ) (c : ConnManager) : Type 0 where
  table : IsTable c
  held : find low c.pipelines ≡ some pipeline
  room : length c.pipelines + n < u32_mod

open-Holds :
    (low pipeline n p : ℕ) (c : ConnManager)
    → Holds low pipeline (suc n) c
    → (c' : ConnManager) × (step c (opened p) ≡ some c') × Holds low pipeline n c'
unfolding step
open-Holds low pipeline n p c h =
    let (c', id, done, o) = on_new_connection-Opens c p h.table (omega (arith, h.room)) in
    let other : low_part id == low ≡ false =
      ground (arith, o.fresh, h.held, ap (λ k. find k c.pipelines) {x = low_part id} {y = low}) in
    (
      c',
      rw (done, step),
      record {
        table = o.keeps_table;
        held = find-Opens c p c' id low o ∙ rw other h.held;
        room =
            omega (
              arith,
              h.room,
              ap length o.entered,
              length-insert (low_part id) p c.pipelines o.fresh,
            );
      },
    )

close-Holds :
    (low pipeline n id : ℕ) (c : ConnManager)
    → low_part id ≢ low
    → Holds low pipeline (suc n) c
    → Holds low pipeline n (on_connection_closed c id).0
close-Holds low pipeline n id c apart h =
    let other : low_part id == low ≡ false = ground arith in
    record {
      table = on_connection_closed-IsTable c id h.table;
      held = find-on_connection_closed c id low ∙ rw other h.held;
      room = omega (arith, h.room, length-on_connection_closed c id);
    }

run-Holds :
    (low pipeline : ℕ) (es : List Event) (c : ConnManager)
    → Leaves low es
    → Holds low pipeline (length es) c
    → (c' : ConnManager) × (run c es ≡ some c') × Holds low pipeline 0 c'
unfolding run step
run-Holds low pipeline [] c free h = (c, refl, h)
run-Holds low pipeline (opened p ∷ es) c free h =
    let (c₁, done, h₁) = open-Holds low pipeline (length es) p c h in
    let (c₂, all, h₂) = run-Holds low pipeline es c₁ free h₁ in (c₂, rw (done, run) all, h₂)
run-Holds low pipeline (closed id ∷ es) c free h =
    run-Holds low pipeline es (on_connection_closed c id).0 free.1
      (close-Holds low pipeline (length es) id c free.0 h)

-- A connection keeps its id. After `OnNewConnection` has given `id` to a pipeline, whatever other
-- connections open and close on the thread, in any order and as long as the 2^32 - 1 numbers last,
-- no callback hangs, and data sent to `id` is written to that pipeline and to it alone.
pub send_after_run :
    (c : ConnManager) (pipeline : ℕ) (c₁ : ConnManager) (id : ℕ) (es : List Event) (buf : IoBuf)
    → IsTable c
    → length c.pipelines + length es + 1 < u32_mod
    → on_new_connection c pipeline ≡ some (c₁, id)
    → Leaves (low_part id) es
    → (c₂ : ConnManager) × (run c₁ es ≡ some c₂)
      × (send_io_buf_by_conn_id c₂ id buf ≡ (true, (pipeline, buf) ∷ []))
send_after_run c pipeline c₁ id es buf t room done free =
    let o = Opens-of_some c pipeline c₁ id t (omega arith) done in
    let h : Holds (low_part id) pipeline (length es) c₁ = record {
      table = o.keeps_table;
      held = find-Opens c pipeline c₁ id (low_part id) o ∙ rw (beq_refl (low_part id));
      room =
          omega
            (arith, ap length o.entered, length-insert (low_part id) pipeline c.pipelines o.fresh);
    } in
    let (c₂, all, h₂) = run-Holds (low_part id) pipeline es c₁ free h in
    (c₂, all, send_some c₂ id pipeline buf h₂.held)
