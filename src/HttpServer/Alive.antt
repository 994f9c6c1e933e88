-- ===== src/HttpServer/Alive.antt =====
-- When a request handler is used and answers.
use service_framework.Prelude.{
  refl, subst, inl, inr, Bool, true, false, none, some, List, [], append-nil, arith, Bool-cases,
  Option-cases, length, ◌≤◌, ◌≡◌, ◌≢◌, ◌⊎◌, ◌∷◌, ◌++◌,
}
use service_framework.HttpServer.{
  Factories, on_eom, reset_self, start_task, end_task, Handling, Stats, dispatch_http_handler,
  fresh_response, Response, answer,
}
use service_framework.HttpServer.Life.{
  Task, World, step, receiving, Event, queued, received, made, gets_error, no_task, ended, Enabled,
  over, gets_request, gets_body, gets_eom, request_completes, task_starts, task_ends, runs,
  start_world,
}

-- An error does not come between the end of a request and the start of its task, nor while a function
-- waits that uses the headers again.
abbrev pub IsPatient : World → Event → Type 0
IsPatient w gets_error = (w.task ≢ queued) × ((o : Handling) → w.task ≡ runs o → o.late_use ≡ false)
IsPatient w _ = Unit

-- What holds of a handler while `IsPatient` does.
pub record IsSound (w : World) : Type 0 where
  pub requested : w.phase ≡ receiving ⊎ w.phase ≡ received → w.handler.request ≢ none
  pub waiting : w.task ≡ queued → (w.phase ≡ received) × (w.handler.destroyed ≡ false)
  pub early : w.phase ≡ made ⊎ w.phase ≡ receiving → w.task ≡ no_task
  pub once : length w.sent ≤ 1
  pub silent : w.sent ≢ [] → w.task ≡ ended
  pub gone : w.handler.destroyed ≡ true → w.phase ≡ over
  pub safe : (o : Handling) → w.task ≡ runs o → w.handler.destroyed ≡ true → o.late_use ≡ false
  pub owned : w.task ≢ no_task → w.phase ≡ received → w.handler.self ≡ true

unsent : {w : World} {o : Handling} → IsSound w → w.task ≡ runs o → w.sent ≡ []
unsent v h = ground (arith, h, v.silent)

-- The end of a task that runs sends one response at most.
ends :
    {w : World} (o : Handling)
    → IsSound w
    → w.task ≡ runs o
    → (responses : List Response) × (end_task w.handler o ≡ some responses) × (length responses ≤ 1)
unfolding end_task
ends {w} o v h = elim (Bool-cases w.handler.destroyed) [
  | inl gone ↦ ([], rw (gone, v.safe o h gone) refl, omega arith)
  | inr there ↦ (answer o.outcome ∷ [], rw there refl, omega arith)
]

module _ (a : Factories) (inited : Bool) where
  step-IsSound :
      (w : World) (e : Event)
      → Enabled w e
      → IsPatient w e
      → IsSound w
      → (u : World) × (step a inited w e ≡ some u) × IsSound u
  unfolding step on_eom reset_self start_task end_task
  step-IsSound w (gets_request m) h p v = (
    _,
    refl,
    record {
      requested = λ x r. absurd (ground (arith, r));
      waiting = λ q. absurd (ground (arith, q, h, v.early, v.waiting));
      early = λ x. v.early (inl h);
      once = v.once;
      silent = v.silent;
      gone = λ d. absurd (ground (arith, d, h, v.gone));
      safe = v.safe;
      owned = λ t r. absurd (ground (arith, r));
    },
  )
  step-IsSound w (gets_body b) h p v = (
    _,
    refl,
    record {
      requested = v.requested;
      waiting = v.waiting;
      early = v.early;
      once = v.once;
      silent = v.silent;
      gone = v.gone;
      safe = v.safe;
      owned = v.owned;
    },
  )
  step-IsSound w gets_eom h p v = (
    _,
    refl,
    record {
      requested = λ x n. absurd (v.requested (inl h) (ground (arith, n)));
      waiting = λ q. (refl, ground (arith, h, v.gone));
      early = λ x. absurd (ground (arith, x));
      once = v.once;
      silent = λ s. absurd (ground (arith, v.silent s, v.early (inr h)));
      gone = λ d. absurd (ground (arith, d, h, v.gone));
      safe = λ o t d. absurd (ground (arith, t));
      owned = λ t r. ground (arith, t);
    },
  )
  step-IsSound w request_completes h p v = (
    _,
    refl,
    record {
      requested = λ x. absurd (ground (arith, x));
      waiting = λ q. absurd (ground (arith, q, h, v.silent));
      early = λ x. absurd (ground (arith, x));
      once = v.once;
      silent = v.silent;
      gone = λ d. refl;
      safe = λ o t d. absurd (ground (arith, t, h, v.silent));
      owned = λ t r. absurd (ground (arith, r));
    },
  )
  step-IsSound w gets_error h p v = (
    _,
    refl,
    record {
      requested = λ x. absurd (ground (arith, x));
      waiting = λ q. absurd (ground (arith, q, p));
      early = λ x. absurd (ground (arith, x));
      once = v.once;
      silent = v.silent;
      gone = λ d. refl;
      safe = λ o t d. p.1 o t;
      owned = λ t r. absurd (ground (arith, r));
    },
  )
  step-IsSound w task_starts h p v = elim (Option-cases w.handler.request) [
    | inl missing ↦ absurd (v.requested (inr (v.waiting h).0) missing)
    | inr (m, eq) ↦ (
      record w {
        handler = record (w.handler) { request_body = [] };
        task = runs (dispatch_http_handler a m w.handler.request_body fresh_response);
      },
      ground (arith, eq, (v.waiting h).1),
      record {
        requested = v.requested;
        waiting = λ q. absurd (ground (arith, q));
        early = λ x. absurd (ground (arith, x, (v.waiting h).0));
        once = v.once;
        silent = λ s. absurd (ground (arith, v.silent s, h));
        gone = v.gone;
        safe = λ o t d. absurd (ground (arith, (v.waiting h).1, d));
        owned = λ t r. v.owned (λ n. absurd (ground (arith, n, h))) r;
      },
    )
  ]
  step-IsSound w task_ends h p v =
      let (responses, done, few) = ends h.0 v h.1 in
      (
        record w { task = ended; sent = w.sent ++ responses },
        ground (arith, h.1, done),
        record {
          requested = v.requested;
          waiting = λ q. absurd (ground (arith, q));
          early = λ x. absurd (ground (arith, v.early x, h.1));
          once = ground (arith, unsent v h.1, few);
          silent = λ s. refl;
          gone = v.gone;
          safe = λ o t d. absurd (ground (arith, t));
          owned = λ t r. v.owned (λ n. absurd (ground (arith, n, h.1))) r;
        },
      )

  -- The worlds that such events lead to.
  pub data Reach (s : World) : World → Type 0 where
    here : Reach s s
    next :
        {t u : World} (e : Event)
        → Reach s t
        → Enabled t e
        → IsPatient t e
        → step a inited t e ≡ some u
        → Reach s u

  start_world-IsSound : (stats : Stats) → IsSound (start_world stats)
  start_world-IsSound stats = record {
    requested = λ x. absurd (ground (arith, x));
    waiting = λ q. absurd (ground (arith, q));
    early = λ x. refl;
    once = omega arith;
    silent = λ s. absurd (s refl);
    gone = λ d. absurd (ground (arith, d));
    safe = λ o t d. absurd (ground (arith, t));
    owned = λ t r. absurd (ground (arith, r));
  }

  Reach-IsSound : {s t : World} → IsSound s → Reach s t → IsSound t
  Reach-IsSound v here = v
  Reach-IsSound v (next {t = t} {u = u} e r h p eq) =
      let (u', eq', sound) = step-IsSound t e h p (Reach-IsSound v r) in
      subst IsSound {x = u'} {y = u} (ground (arith, eq, eq')) sound

  ends_silent :
      (w : World) {u : World} (task : Task)
      → w.task ≡ task
      → step a inited w task_ends ≡ some u
      → w.handler.destroyed ≡ true
      → u.sent ≡ w.sent
  unfolding step end_task
  ends_silent w no_task e h gone = absurd (ground (arith, h, e))
  ends_silent w queued e h gone = absurd (ground (arith, h, e))
  ends_silent w ended e h gone = absurd (ground (arith, h, e))
  ends_silent w (runs o) e h gone = elim (Bool-cases o.late_use) [
    | inl late ↦ absurd (ground (arith, h, e, gone, late))
    | inr calm ↦ ground (arith, h, e, gone, calm, append-nil w.sent)
  ]

  -- Nothing is sent for a handler that is gone.
  gone_is_silent :
      (w : World) {u : World} (e : Event)
      → step a inited w e ≡ some u
      → w.handler.destroyed ≡ true
      → u.sent ≡ w.sent
  unfolding step on_eom reset_self start_task end_task
  gone_is_silent w (gets_request m) h gone = ground (arith, h)
  gone_is_silent w (gets_body b) h gone = ground (arith, h)
  gone_is_silent w gets_eom h gone = ground (arith, h)
  gone_is_silent w request_completes h gone = ground (arith, h)
  gone_is_silent w gets_error h gone = ground (arith, h)
  gone_is_silent w task_starts h gone = absurd (ground (arith, h, gone))
  gone_is_silent w task_ends h gone = ends_silent w w.task refl h gone

  -- From a new handler, with any events in proxygen's order, where no error comes between the end of a
  -- request and the start of its task or while a function waits that uses the headers again: every
  -- next event runs without a use of a deleted handler, of its headers or of a null request; at most
  -- one response is sent, and none once the handler is deleted; and it is deleted at the last event
  -- only.
  pub step_once :
      (stats : Stats) {t : World} (e : Event)
      → Reach (start_world stats) t
      → Enabled t e
      → IsPatient t e
      → (u : World) × (step a inited t e ≡ some u)
        × (length u.sent ≤ 1)
        × (t.handler.destroyed ≡ true → u.sent ≡ t.sent)
        × (u.handler.destroyed ≡ true → u.phase ≡ over)
  step_once stats {t} e r h p =
      let (u, eq, v) = step-IsSound t e h p (Reach-IsSound (start_world-IsSound stats) r) in
      (u, eq, v.once, gone_is_silent t e eq, v.gone)

  -- An error between the end of a request and the start of its task deletes the handler, and the task
  -- then uses it: no result.
  pub error_before_task :
      (w : World)
      → IsSound w
      → w.task ≡ queued
      → (u : World) × (step a inited w gets_error ≡ some u)
        × (u.task ≡ queued)
        × (step a inited u task_starts ≡ none)
  unfolding step reset_self start_task
  error_before_task w v h = (_, refl, h, ground (arith, v.waiting h, v.owned, h))
