-- ===== src/HttpServer/Served.antt =====
-- What a request is answered with.
use service_framework.Prelude.{
  ℕ, String, refl, sym, ap, true, Option, none, some, List, [], map, append-nil, append_assoc,
  arith, find, find-insert, ◌≡◌, ◌∙◌, ◌∷◌, ◌++◌, string_eq, if◌then◌else◌, nat_eq, string_eq,
}
use service_framework.Stats.{Stats, increase_at}
use service_framework.HttpServer.{
  dispatch_http_handler, Factories, Message, on_eom, register_template, on_body, HttpExecuteFunc,
  reset_self, Response, start_task, Outcome, returns, throws, untouched, end_task, answer,
  fresh_response, on_request, new_request_handler,
}
use service_framework.HttpServer.Life.{
  World, step, run, Event, gets_request, gets_body, gets_eom, task_starts, start_world, task_ends,
  request_completes, receiving,
}

abbrev pub all_bytes : List (List ℕ) → List ℕ
all_bytes [] = []
all_bytes (b ∷ chunks) = b ++ all_bytes chunks

-- A request in chunks, its task and its completion.
abbrev pub request_events : Message → List (List ℕ) → List Event
request_events m chunks =
    gets_request m
    ∷ (map gets_body chunks ++ gets_eom ∷ task_starts ∷ task_ends ∷ request_completes ∷ [])

-- What a function's run is answered with.
abbrev pub sent_for : Outcome → Response
sent_for (returns r) = r
sent_for (throws (some what)) = record {
  status = 500;
  status_message = "Internal Server Error";
  body = what;
}
sent_for (throws none) = record {
  status = 500;
  status_message = "Internal Server Error";
  body = "Unknown exception thrown";
}

abbrev pub ok : Response
ok = record { status = 200; status_message = "OK"; body = "" }

-- What a request is answered with, by the table of functions.
abbrev pub served : Factories → Message → List ℕ → Response
served a m body = elim (find m.path a) [
  | none ↦ ok
  | some none ↦ ok
  | some (some f) ↦ sent_for (f m body ok).outcome
]

answer_lem : (o : Outcome) → answer o ≡ sent_for o
answer_lem (returns r) = refl
answer_lem (throws (some what)) = refl
answer_lem (throws none) = refl

served_by :
    (a : Factories) (m : Message) (body : List ℕ) (found : Option (Option HttpExecuteFunc))
    → find m.path a ≡ found
    → answer (dispatch_http_handler a m body fresh_response).outcome ≡ served a m body
unfolding dispatch_http_handler
served_by a m body none h =
    let run : dispatch_http_handler a m body fresh_response ≡ untouched ok =
      rw (h, dispatch_http_handler) refl in
    let sent : ok ≡ served a m body = rw (h, served) refl in ap (λ k. answer k.outcome) run ∙ sent
served_by a m body (some none) h =
    let run : dispatch_http_handler a m body fresh_response ≡ untouched ok =
      rw (h, dispatch_http_handler) refl in
    let sent : ok ≡ served a m body = rw (h, served) refl in ap (λ k. answer k.outcome) run ∙ sent
served_by a m body (some (some f)) h =
    let run : dispatch_http_handler a m body fresh_response ≡ f m body ok =
      rw (h, dispatch_http_handler) refl in
    let sent : sent_for (f m body ok).outcome ≡ served a m body = rw (h, served) refl in
    ap (λ k. answer k.outcome) run ∙ answer_lem (f m body ok).outcome ∙ sent

module _ (a : Factories) where
  abbrev filled : World → List ℕ → World
  filled w b = record w { handler = on_body w.handler b }

  abbrev with_body : World → List Event → List ℕ → Option World
  with_body w rest b =
      run a true (record w { handler = record (w.handler) { request_body = b } }) rest

  run-bodies :
      (chunks : List (List ℕ)) (w : World) (rest : List Event)
      → run a true w (map gets_body chunks ++ rest) ≡ run a true (filled w (all_bytes chunks)) rest
  unfolding run step
  run-bodies [] w rest = ap (with_body w rest) (sym (append-nil w.handler.request_body))
  run-bodies (b ∷ chunks) w rest =
      run-bodies chunks (filled w b) rest
      ∙ ap (with_body w rest) (append_assoc w.handler.request_body b (all_bytes chunks))

  -- A request in any chunks, on a thread with fibers: its end starts one task, counted in the
  -- statistics; the one answer is what the function for its path makes of the whole body and of a
  -- response of 200 OK, or 500 with the text of its exception, and an empty 200 OK for a path without
  -- function; and the handler is deleted with its completion.
  pub run-answer :
      (m : Message) (chunks : List (List ℕ)) (stats : Stats)
      → (u : World) × (run a true (start_world stats) (request_events m chunks) ≡ some u)
        × (u.sent ≡ served a m (all_bytes chunks) ∷ [])
        × (u.handler.destroyed ≡ true)
        × (u.stats ≡ increase_at stats 0 1)
  unfolding run step on_eom reset_self start_task end_task
  run-answer m chunks stats = (
    _,
    run-bodies chunks
        (record (start_world stats) {
          handler = on_request new_request_handler m;
          phase = receiving;
        })
        (gets_eom ∷ task_starts ∷ task_ends ∷ request_completes ∷ []),
    ap (λ r. r ∷ []) (served_by a m (all_bytes chunks) (find m.path a) refl),
    refl,
    refl,
  )

-- The first function of a path stays, and is called for exactly that path; without a function the response builder is left as it is.
pub dispatch-register_template :
    (a : Factories) (path : String) (func : HttpExecuteFunc) (m : Message) (body : List ℕ)
    (r : Response)
    → dispatch_http_handler (register_template a path (some func)) m body r ≡ elim (find m.path a) [
      | some f ↦ dispatch_http_handler a m body r
      | none ↦ if string_eq.beq path m.path then func m body r else untouched r
    ]
unfolding dispatch_http_handler register_template
dispatch-register_template a path func m body r = ground (
  arith,
  find-insert path m.path (some func) a,
  string_eq.beq_iff path m.path,
  ap (λ k. find k a) {x = path} {y = m.path},
)
