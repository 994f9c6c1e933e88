-- ===== src/Tcp/Tests.antt =====
-- A client that is refused, connects, loses its connection and is stopped, and the theorems at it.
use service_framework.Prelude.{ℕ, refl, true, false, none, some, [], arith, ◌+◌, ◌≡◌, ◌∷◌}
use service_framework.Tcp.{
  connect_success, start, connect_err, do_connect, IoBuf, connect, event_base, pipeline_factory,
  run_send, delete_pipeline, set_child_pipeline,
}
use service_framework.Tcp.Reconnect.{
  World, step, run, stops, refused, IsHistory, connects, fires, ends, over, starts,
}
use service_framework.Tcp.Stopped.{stop-connected, stop_pending}
use service_framework.Tcp.Live.{
  IsLive, Connects, bootstrap, Connects-again, run-IsLive, one_event, made,
}

abbrev trying : World
trying = record {
  tcp = record { client = some (bootstrap 3 8); connected = false; stoped = false; factory = true };
  attempts = 1;
  timers = 0;
}

abbrev up : World
up = record {
  tcp = record { client = some (bootstrap 3 8); connected = true; stoped = false; factory = true };
  attempts = 0;
  timers = 0;
}

abbrev sleeping : World
sleeping = record {
  tcp = record { client = some (bootstrap 3 8); connected = false; stoped = false; factory = true };
  attempts = 0;
  timers = 1;
}

trying-IsLive : IsLive trying
trying-IsLive = record { base = 3; pipeline = 8; holds = refl; runs = refl; one_pending = refl }

up-IsLive : IsLive up
up-IsLive = record { base = 3; pipeline = 8; holds = refl; runs = refl; one_pending = refl }

sleeping-IsLive : IsLive sleeping
sleeping-IsLive = record { base = 3; pipeline = 8; holds = refl; runs = refl; one_pending = refl }

starts_up : step (made 3) (starts 8) ≡ some trying
unfolding step start do_connect connect pipeline_factory set_child_pipeline
starts_up = refl

refused_then_fires : run (refused ∷ fires 8 ∷ connects ∷ ends 8 ∷ []) trying ≡ some sleeping
unfolding run step connect_success connect_err event_base delete_pipeline do_connect connect
refused_then_fires = refl

refused_sleeps : step trying refused ≡ some sleeping
unfolding step connect_err event_base
refused_sleeps = refl

fires_tries : step sleeping (fires 8) ≡ some trying
unfolding step do_connect connect
fires_tries = refl

outage-IsHistory : IsHistory (refused ∷ fires 8 ∷ []) trying
outage-IsHistory =
    one_event sleeping refused (omega arith) refused_sleeps
      (one_event trying (fires 8) (omega arith) fires_tries over)

run-IsLive_example : (u : World) × (run (refused ∷ fires 8 ∷ []) trying ≡ some u) × IsLive u
run-IsLive_example = run-IsLive trying-IsLive outage-IsHistory

Connects-again_example : Connects 2 sleeping
Connects-again_example = Connects-again sleeping sleeping-IsLive

stop-connected_example :
    (u : World) × (step up (stops true) ≡ some u)
    × (u.attempts ≡ 0)
    × (u.timers ≡ 0)
    × (u.tcp.stoped ≡ true)
    × (u.tcp.client ≡ none)
    × ((buf : IoBuf) → run_send u.tcp buf ≡ some [])
stop-connected_example = stop-connected up up-IsLive refl

stop_pending_example :
    (u : World) × (step sleeping (stops true) ≡ some u)
    × (u.attempts + u.timers ≡ 1)
    × ((p : ℕ) → (step u refused ≡ none) × (step u connects ≡ none) × (step u (fires p) ≡ none))
stop_pending_example = stop_pending sleeping true sleeping-IsLive refl
