-- ===== src/Tcp/Stopped.antt =====
-- `Stop` of a client that runs, and what comes after it.
use service_framework.Prelude.{ℕ, refl, Bool, true, false, none, some, [], arith, ◌+◌, ◌≡◌}
use service_framework.Tcp.{
  stop, connect_success, close_pipeline, connect_err, event_base, delete_pipeline, do_connect,
  run_send, IoBuf,
}
use service_framework.Tcp.Reconnect.{World, step, stops, refused, connects, fires, ends}
use service_framework.Tcp.Live.{IsLive}

-- An attempt that is refused, a timer that fires or a pipeline that ends is a call on the bootstrap,
-- which is gone.
gone_steps :
    (w : World)
    → w.tcp.client ≡ none
    → (p : ℕ)
    → (step w refused ≡ none)
      × (step w connects ≡ none)
      × (step w (fires p) ≡ none)
      × (step w (ends p) ≡ none)
unfolding step connect_success connect_err event_base delete_pipeline do_connect
gone_steps w h p = (ground (arith, h), ground (arith, h), ground (arith, h), ground (arith, h))

-- `Stop` of a running client that is connected, when `close` of the pipeline tells its manager: no
-- attempt and no timer is left, no bootstrap, and what is sent afterwards is dropped without a crash.
pub stop-connected :
    (w : World)
    → IsLive w
    → w.tcp.connected ≡ true
    → (u : World) × (step w (stops true) ≡ some u)
      × (u.attempts ≡ 0)
      × (u.timers ≡ 0)
      × (u.tcp.stoped ≡ true)
      × (u.tcp.client ≡ none)
      × ((buf : IoBuf) → run_send u.tcp buf ≡ some [])
unfolding step stop close_pipeline event_base delete_pipeline run_send
stop-connected w v up = (
  record w { tcp = record w.tcp { stoped = true; client = none; connected = false } },
  ground (arith, v.holds, v.runs, up),
  ground (arith, v.one_pending, up),
  ground (arith, v.one_pending, up),
  refl,
  refl,
  λ buf. refl,
)

-- `Stop` of a running client that is not connected succeeds, and leaves the attempt or the timer that
-- it had; the event that ends that, refusal, connect or timer, ends the program in a null pointer.
pub stop_pending :
    (w : World) (tells : Bool)
    → IsLive w
    → w.tcp.connected ≡ false
    → (u : World) × (step w (stops tells) ≡ some u)
      × (u.attempts + u.timers ≡ 1)
      × ((p : ℕ) → (step u refused ≡ none) × (step u connects ≡ none) × (step u (fires p) ≡ none))
unfolding step stop close_pipeline event_base
stop_pending w tells v down =
    let u : World = record w { tcp = record w.tcp { stoped = true; client = none } } in
    (
      u,
      ground (arith, v.holds, down),
      ground (arith, v.one_pending, down),
      λ p. let (a, b, c, d) = gone_steps u refl p in (a, b, c),
    )
