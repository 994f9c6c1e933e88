-- ===== src/Fiber/Wakeup.antt =====
-- The states that a fiber's data goes through.
use service_framework.Prelude.{Bool, List, [], arith, ◌∷◌}
use service_framework.Fiber.{State, not_waiting, waiting, FiberDataInfo, clear, wait, post}

-- Calls on one object, in the order in which they return.
pub data Call : Type 0 where
  waits : Bool → Call
  posts : Bool → Call
  clears : Call

unfoldable pub step : FiberDataInfo → Call → FiberDataInfo
step d (waits rv) = wait d rv
step d (posts rc) = post d rc
step d clears = clear d

unfoldable pub run : FiberDataInfo → List Call → FiberDataInfo
run d [] = d
run d (c ∷ cs) = run (step d c) cs

-- The states that the code gives; `kNotWaiting` and `kWaiting` are only declared.
abbrev pub IsUsed : State → Type 0
IsUsed not_waiting = ⊥
IsUsed waiting = ⊥
IsUsed _ = Unit

step-IsUsed : (d : FiberDataInfo) (c : Call) → IsUsed d.state → IsUsed (step d c).state
unfolding step wait post clear
step-IsUsed d (waits rv) h = ground arith
step-IsUsed d (posts rc) h = ground arith
step-IsUsed d clears h = tt

-- No sequence of calls brings an object into `kNotWaiting` or `kWaiting`: while a fiber waits its
-- state is the one from before.
run-IsUsed : (d : FiberDataInfo) (cs : List Call) → IsUsed d.state → IsUsed (run d cs).state
unfolding run
run-IsUsed d [] h = h
run-IsUsed d (c ∷ cs) h = run-IsUsed (step d c) cs (step-IsUsed d c h)
