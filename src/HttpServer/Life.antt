-- ===== src/HttpServer/Life.antt =====
-- The life of a request handler: what proxygen calls on it, and its task in the fibers.
use service_framework.Prelude.{
  ℕ, Bool, Option, none, some, List, [], ◌≡◌, ◌≢◌, ◌∷◌, ◌++◌, if◌then◌else◌,
}
use service_framework.Stats.{Stats}
use service_framework.HttpServer.{
  RequestHandler, Response, new_request_handler, Factories, Handling, Message, on_request, on_body,
  on_eom, reset_self, start_task, end_task,
}

pub data Phase : Type 0 where
  made receiving received over : Phase

pub data Task : Type 0 where
  no_task queued ended : Task
  runs : Handling → Task

pub record World : Type 0 where
  pub handler : RequestHandler
  pub phase : Phase
  pub task : Task
  pub sent : List Response
  pub stats : Stats

pub data Event : Type 0 where
  gets_request : Message → Event
  gets_body : List ℕ → Event
  gets_eom request_completes gets_error : Event
  task_starts task_ends : Event

abbrev pub start_world : Stats → World
start_world stats = record {
  handler = new_request_handler;
  phase = made;
  task = no_task;
  sent = [];
  stats = stats;
}

module _ (a : Factories) (inited : Bool) where
  unfoldable pub step : World → Event → Option World
  step w (gets_request m) = some (record w { handler = on_request w.handler m; phase = receiving })
  step w (gets_body b) = some (record w { handler = on_body w.handler b })
  step w gets_eom =
      let r = on_eom inited w.handler w.stats in
      some (record w {
        handler = r.0;
        stats = r.1;
        phase = received;
        task = if r.2 then queued else no_task;
      })
  step w request_completes = some (record w { handler = reset_self w.handler; phase = over })
  step w gets_error = some (record w { handler = reset_self w.handler; phase = over })
  step w task_starts = elim (start_task a w.handler) [
    | none ↦ none
    | some (h, o) ↦ some (record w { handler = h; task = runs o })
  ]
  step w task_ends = elim w.task [
    | no_task ↦ none
    | queued ↦ none
    | ended ↦ none
    | runs o ↦ elim (end_task w.handler o) [
      | none ↦ none
      | some responses ↦ some (record w { task = ended; sent = w.sent ++ responses })
    ]
  ]

  unfoldable pub run : World → List Event → Option World
  run w [] = some w
  run w (e ∷ events) = elim (step w e) [ none ↦ none | some u ↦ run u events ]

-- proxygen gives the message, then the body, then its end, and at last one of the completion, which
-- follows a response, and an error; the fibers run a task once.
abbrev pub Enabled : World → Event → Type 0
Enabled w (gets_request m) = w.phase ≡ made
Enabled w (gets_body b) = w.phase ≡ receiving
Enabled w gets_eom = w.phase ≡ receiving
Enabled w request_completes = (w.phase ≡ received) × (w.sent ≢ [])
Enabled w gets_error = w.phase ≢ over
Enabled w task_starts = w.task ≡ queued
Enabled w task_ends = (o : Handling) × (w.task ≡ runs o)
