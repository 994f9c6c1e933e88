-- ===== src/HttpServer/Tests.antt =====
-- A server of one path, and the theorems at its requests.
use service_framework.Prelude.{
  refl, true, false, Option, none, some, [], arith, length, find, ◌≤◌, ◌≡◌, ◌∷◌, string_eq,
  if◌then◌else◌, nat_eq, string_eq,
}
use service_framework.Stats.{new_stats, increase_at}
use service_framework.HttpServer.{
  HttpExecuteFunc, Message, dispatch_http_handler, Factories, on_request, answer, register_template,
  returns, untouched, new_request_handler, fresh_response,
}
use service_framework.HttpServer.Life.{
  World, step, run, gets_eom, received, start_world, gets_error, over, gets_request, queued,
  task_starts, receiving,
}
use service_framework.HttpServer.Alive.{IsSound, here, next, step_once, error_before_task}
use service_framework.HttpServer.Served.{
  served, run-answer, dispatch-register_template, request_events,
}

abbrev hello : HttpExecuteFunc
hello m body r = record { outcome = returns (record r { body = "hello" }); late_use = false }

abbrev paths : Factories
paths = ("/hello", some hello) ∷ []

abbrev ask : Message
ask = record { path = "/hello"; content = 3 }

abbrev queued_world : World
queued_world = record {
  handler = record { request = some ask; request_body = []; self = true; destroyed = false };
  phase = received;
  task = queued;
  sent = [];
  stats = new_stats "fiber" 6;
}

queued_world-IsSound : IsSound queued_world
queued_world-IsSound = record {
  requested = λ x n. absurd (ground (arith, n));
  waiting = λ q. (refl, refl);
  early = λ x. absurd (ground (arith, x));
  once = omega arith;
  silent = λ s. absurd (s refl);
  gone = λ d. absurd (ground (arith, d));
  safe = λ o t d. absurd (ground (arith, t));
  owned = λ t r. refl;
}

error_before_task_example :
    (u : World) × (step paths true queued_world gets_error ≡ some u)
    × (u.task ≡ queued)
    × (step paths true u task_starts ≡ none)
error_before_task_example = error_before_task paths true queued_world queued_world-IsSound refl

abbrev asked : World
asked = record (start_world (new_stats "fiber" 6)) {
  handler = on_request new_request_handler ask;
  phase = receiving;
}

is_asked : step paths true (start_world (new_stats "fiber" 6)) (gets_request ask) ≡ some asked
unfolding step
is_asked = refl

step_once_example :
    (u : World) × (step paths true asked gets_eom ≡ some u)
    × (length u.sent ≤ 1)
    × (asked.handler.destroyed ≡ true → u.sent ≡ asked.sent)
    × (u.handler.destroyed ≡ true → u.phase ≡ over)
step_once_example =
    step_once paths true (new_stats "fiber" 6) gets_eom
      (next (gets_request ask) here refl tt is_asked) refl tt

run-answer_example :
    (u : World) × (run paths true
        (start_world (new_stats "fiber" 6))
        (request_events ask ((1 ∷ []) ∷ []))
      ≡ some u)
    × (u.sent ≡ served paths ask (1 ∷ []) ∷ [])
    × (u.handler.destroyed ≡ true)
    × (u.stats ≡ increase_at (new_stats "fiber" 6) 0 1)
run-answer_example = run-answer paths ask ((1 ∷ []) ∷ []) (new_stats "fiber" 6)

says_hello :
    answer (dispatch_http_handler paths ask [] fresh_response).outcome
    ≡ record fresh_response { body = "hello" }
unfolding dispatch_http_handler find
says_hello = refl

dispatch-register_template_example :
    dispatch_http_handler (register_template [] "/hello" (some hello)) ask [] fresh_response
    ≡ elim (find {V = Option HttpExecuteFunc} ask.path []) [
      | some f ↦ dispatch_http_handler [] ask [] fresh_response
      | none ↦
          if string_eq.beq "/hello" "/hello"
          then hello ask [] fresh_response
          else untouched fresh_response
    ]
dispatch-register_template_example =
    dispatch-register_template [] "/hello" hello ask [] fresh_response
