-- ===== src/Tcp/Reconnect.antt =====
-- The life of a TCP client: what its event base and its network call, as steps. A step is `none` when
-- the program ends in it.
use service_framework.Prelude.{ℕ, Bool, true, Option, none, some, List, [], ◌+◌, ◌-◌, ◌<◌, ◌≡◌, ◌∷◌}
use service_framework.Tcp.{
  TcpClient, start, connect_success, connect_err, delete_pipeline, do_connect, stop,
}

-- The client, the attempts to connect that have no outcome yet, and the timers that are set.
pub record World : Type 0 where
  pub tcp : TcpClient
  pub attempts : ℕ
  pub timers : ℕ

-- The numbers are pipelines: those of `starts` and `fires` are made in the step.
pub data Event : Type 0 where
  starts : ℕ → Event
  connects : Event
  refused : Event
  ends : ℕ → Event
  fires : ℕ → Event
  stops : Bool → Event

abbrev timer_of : Option ℕ → ℕ
timer_of none = 0
timer_of (some _) = 1

abbrev with_timer : World → Option (TcpClient × Option ℕ) → Option World
with_timer w none = none
with_timer w (some (c, timer)) = some (record w { tcp = c; timers = w.timers + timer_of timer })

unfoldable pub step : World → Event → Option World
step w (starts p) = elim (start w.tcp p) [
  | none ↦ none
  | some c ↦ some (record w { tcp = c; attempts = w.attempts + 1 })
]
step w connects = elim (connect_success w.tcp) [
  | none ↦ none
  | some (c, p) ↦ some (record w { tcp = c; attempts = w.attempts - 1 })
]
step w refused = elim (connect_err w.tcp) [
  | none ↦ none
  | some e ↦ some (record w { attempts = w.attempts - 1; timers = w.timers + 1 })
]
step w (ends p) = with_timer w (delete_pipeline w.tcp p)
step w (fires p) = elim (do_connect w.tcp p) [
  | none ↦ none
  | some c ↦ some (record w { tcp = c; attempts = w.attempts + 1; timers = w.timers - 1 })
]
step w (stops tells) = with_timer w (stop tells w.tcp)

-- What can happen while the client runs: an attempt has an outcome, a timer fires, and the pipeline of
-- the client, whose manager the client is from the connect on, ends. `Start` and `Stop` are not in it.
abbrev pub Enabled : World → Event → Type 0
Enabled w (starts _) = ⊥
Enabled w connects = 0 < w.attempts
Enabled w refused = 0 < w.attempts
Enabled w (ends p) =
    (w.tcp.connected ≡ true) × (elim w.tcp.client [ none ↦ none | some b ↦ b.pipeline ] ≡ some p)
Enabled w (fires _) = 0 < w.timers
Enabled w (stops _) = ⊥

unfoldable pub run : List Event → World → Option World
run [] w = some w
run (e ∷ history) w = elim (step w e) [ none ↦ none | some u ↦ run history u ]

-- Every event of the history is enabled when it comes.
pub data IsHistory : List Event → World → Type 0 where
  over : {w : World} → IsHistory [] w
  goes_on :
      {w : World} {e : Event} {history : List Event}
      → Enabled w e
      → ((u : World) → step w e ≡ some u → IsHistory history u)
      → IsHistory (e ∷ history) w
