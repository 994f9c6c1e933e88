-- ===== src/Root/Timer.antt =====
-- The timer of `Root` on the main event base: `DoTimer` of baselib/net/root.cc and the closure that
-- `Run` posts. A closure runs some milliseconds after it is due, which are an argument.
use service_framework.Prelude.{
  ℕ, refl, sym, ap, List, [], append-nil, append_assoc, ◌+◌, ◌≡◌, ◌∙◌, ◌∷◌, ◌++◌,
}

-- The closure of `Run`, which calls `DoTimer`, and that of `DoTimer`, which calls `OnTimer(0)` first.
pub data Closure : Type 0 where
  begin_timer : Closure
  tick : Closure

-- `timers`: the closures with the times at which they are due. `on_timer`: when `OnTimer` was called.
pub record MainLoop : Type 0 where
  pub now : ℕ
  pub timers : List (ℕ × Closure)
  pub on_timer : List ℕ

unfoldable pub run_after_delay : MainLoop → Closure → ℕ → MainLoop
run_after_delay l c delay = record l { timers = l.timers ++ (l.now + delay, c) ∷ [] }

unfoldable pub do_timer : MainLoop → ℕ → MainLoop
unfolding run_after_delay
do_timer l intervals = run_after_delay l tick intervals

-- What `Run` posts before `loopForever`.
unfoldable pub post_timer : MainLoop → MainLoop
unfolding run_after_delay
post_timer l = run_after_delay l begin_timer 1000

unfoldable pub run_closure : Closure → MainLoop → MainLoop
unfolding do_timer
run_closure begin_timer l = do_timer l 1000
run_closure tick l = do_timer (record l { on_timer = l.on_timer ++ l.now ∷ [] }) 1000

-- The first closure runs, `late` milliseconds after it is due.
unfoldable pub loop_once : ℕ → MainLoop → MainLoop
unfolding run_closure
loop_once late l = elim l.timers [
  | [] ↦ l
  | (due, c) ∷ rest ↦ run_closure c (record l { now = due + late; timers = rest })
]

-- `loopForever`, until it is ended after these rounds.
unfoldable pub loop_for_ever : List ℕ → MainLoop → MainLoop
loop_for_ever [] l = l
loop_for_ever (late ∷ lates) l = loop_for_ever lates (loop_once late l)

-- When the `k`-th calls of `OnTimer` come, from a closure that is due at `due`.
abbrev pub ticks : ℕ → List ℕ → List ℕ
ticks due [] = []
ticks due (late ∷ lates) = (due + late) ∷ ticks (due + late + 1000) lates

-- When the closure that is pending after the rounds is due.
abbrev pub next_due : ℕ → List ℕ → ℕ
next_due due [] = due
next_due due (late ∷ lates) = next_due (due + late + 1000) lates

ticking :
    (lates : List ℕ) (l : MainLoop) (due : ℕ)
    → l.timers ≡ (due, tick) ∷ []
    → ((loop_for_ever lates l).timers ≡ (next_due due lates, tick) ∷ [])
      × ((loop_for_ever lates l).on_timer ≡ l.on_timer ++ ticks due lates)
unfolding loop_for_ever loop_once
ticking [] l due one = (one, sym (append-nil l.on_timer))
ticking (late ∷ lates) l due one =
    let step : loop_once late l ≡ record l {
      now = due + late;
      timers = (due + late + 1000, tick) ∷ [];
      on_timer = l.on_timer ++ (due + late) ∷ [];
    } =
      rw (one, loop_once) refl in
    let (pending, called) =
      ticking lates (loop_once late l) (due + late + 1000) (ap (λ x. x.timers) step) in
    (
      pending,
      called
          ∙ ap (λ x. x.on_timer ++ ticks (due + late + 1000) lates) step
          ∙ append_assoc l.on_timer ((due + late) ∷ []) (ticks (due + late + 1000) lates),
    )

-- Whatever the delays of the closures: after the first round there is always one closure pending,
-- that of `DoTimer`, so `OnTimer` is called once in each later round, the first time two seconds
-- after `Run` began its loop, and then a second after the call before, each time later by the delays.
pub loop_for_ever-ticks :
    (late : ℕ) (lates : List ℕ) (now : ℕ)
    → let l =
        loop_for_ever
          (late ∷ lates)
          (post_timer (record { now = now; timers = []; on_timer = [] })) in
      (l.timers ≡ (next_due (now + 1000 + late + 1000) lates, tick) ∷ [])
      × (l.on_timer ≡ ticks (now + 1000 + late + 1000) lates)
unfolding loop_for_ever post_timer loop_once
loop_for_ever-ticks late lates now = ticking lates _ (now + 1000 + late + 1000) refl
