-- ===== src/Tcp/Live.antt =====
-- A started client that is not stopped.
use service_framework.Prelude.{
  ℕ, refl, subst, inl, inr, true, false, some, List, [], arith, length, ◌+◌, ◌-◌, ◌≤◌, ◌<◌, ◌≡◌,
  ◌⊎◌, ◌∷◌, if◌then◌else◌,
}
use service_framework.Tcp.{
  start, ClientBootstrap2, set_child_pipeline, connect_success, do_connect, new_tcp_client,
  connect_err, event_base, connect, pipeline_factory, delete_pipeline,
}
use service_framework.Tcp.Reconnect.{
  World, step, run, Event, IsHistory, Enabled, starts, ends, goes_on, fires, stops, over, connects,
  refused,
}

abbrev pub bootstrap : ℕ → ℕ → ClientBootstrap2
bootstrap e p = record { pipeline = some p; has_factory = true; base = some e }

-- It has a bootstrap with a pipeline, and is connected, or has one attempt under way, or one timer.
pub record IsLive (w : World) : Type 0 where
  pub base : ℕ
  pub pipeline : ℕ
  pub holds : w.tcp.client ≡ some (bootstrap base pipeline)
  pub runs : w.tcp.stoped ≡ false
  pub one_pending : w.attempts + w.timers + (if w.tcp.connected then 1 else 0) ≡ 1

-- A client of an event base and a factory, before `Start`.
abbrev pub made : ℕ → World
made e = record {
  tcp = set_child_pipeline (new_tcp_client (some e)) true;
  attempts = 0;
  timers = 0;
}

-- `Start` makes such a client.
pub starts-IsLive : (e p : ℕ) → (u : World) × (step (made e) (starts p) ≡ some u) × IsLive u
unfolding step start do_connect connect pipeline_factory set_child_pipeline
starts-IsLive e p =
    (_, refl, record { base = e; pipeline = p; holds = refl; runs = refl; one_pending = refl })

-- Every enabled event runs, and keeps that.
step-IsLive :
    (w : World) (e : Event) → Enabled w e → IsLive w → (u : World) × (step w e ≡ some u) × IsLive u
unfolding step connect_success connect_err event_base delete_pipeline do_connect connect
step-IsLive w (starts p) h v = absurd h
step-IsLive w connects h v = (
  record w { tcp = record w.tcp { connected = true }; attempts = w.attempts - 1 },
  ground (arith, v.holds),
  record {
    base = v.base;
    pipeline = v.pipeline;
    holds = v.holds;
    runs = v.runs;
    one_pending = ground (arith, v.one_pending);
  },
)
step-IsLive w refused h v = (
  record w { attempts = w.attempts - 1; timers = w.timers + 1 },
  ground (arith, v.holds),
  record {
    base = v.base;
    pipeline = v.pipeline;
    holds = v.holds;
    runs = v.runs;
    one_pending = ground (arith, v.one_pending);
  },
)
step-IsLive w (ends p) h v = (
  record w { tcp = record w.tcp { connected = false }; timers = w.timers + 1 },
  ground (arith, v.holds, v.runs, h.1),
  record {
    base = v.base;
    pipeline = v.pipeline;
    holds = v.holds;
    runs = v.runs;
    one_pending = ground (arith, v.one_pending);
  },
)
step-IsLive w (fires p) h v = (
  record w {
    tcp = record w.tcp { client = some (bootstrap v.base p) };
    attempts = w.attempts + 1;
    timers = w.timers - 1;
  },
  ground (arith, v.holds),
  record {
    base = v.base;
    pipeline = p;
    holds = refl;
    runs = v.runs;
    one_pending = ground (arith, v.one_pending);
  },
)
step-IsLive w (stops t) h v = absurd h

-- From a running client (`IsLive`: started, not stopped), every history of enabled events (the network
-- accepts or refuses, a timer fires, the pipeline of the client ends) runs without a crash, and leaves
-- it running: with its bootstrap, and with exactly one of a connection, an attempt and a timer.
pub run-IsLive :
    {w : World} {history : List Event}
    → IsLive w
    → IsHistory history w
    → (u : World) × (run history w ≡ some u) × IsLive u
unfolding run
run-IsLive v over = (_, refl, v)
run-IsLive {w} v (goes_on {e = e} h rest) =
    let (u, eq, v') = step-IsLive w e h v in
    let (z, eq', v'') = run-IsLive v' (rest u eq) in (z, ground (arith, eq, eq'), v'')

-- A step has one result, so it is enough to go on from that.
pub one_event :
    {w : World} (u : World) (e : Event) {history : List Event}
    → Enabled w e
    → step w e ≡ some u
    → IsHistory history u
    → IsHistory (e ∷ history) w
one_event u e {history} h eq rest =
    goes_on h (λ u' eq'. subst (IsHistory history) (ground (arith, eq, eq')) rest)

-- Some history of at most `n` events ends in a connected client.
abbrev pub Connects : ℕ → World → Type 0
Connects n w =
    (history : List Event) × (u : World) × (length history ≤ n)
    × IsHistory history w
    × (run history w ≡ some u)
    × (u.tcp.connected ≡ true)

accepted : (w : World) (v : IsLive w) → 0 < w.attempts → Connects 1 w
unfolding step connect_success run
accepted w v h =
    let u : World = record w {
      tcp = record w.tcp { connected = true };
      attempts = w.attempts - 1;
    } in
    let eq : step w connects ≡ some u = ground (arith, v.holds) in
    (connects ∷ [], u, omega arith, one_event u connects h eq over, ground (arith, eq), refl)

fired : (w : World) (v : IsLive w) → 0 < w.timers → Connects 2 w
unfolding step do_connect run
fired w v h =
    let (u, eq, v') = step-IsLive w (fires 0) h v in
    let (history, z, n, past, r, up) = accepted u v' (ground (arith, eq, h)) in
    (
      fires 0 ∷ history,
      z,
      omega (arith, n),
      one_event u (fires 0) h eq past,
      ground (arith, eq, r),
      up,
    )

pending_cases :
    (w : World) → IsLive w → (w.tcp.connected ≡ true) ⊎ ((0 < w.attempts) ⊎ (0 < w.timers))
pending_cases w v = ground (arith, v.one_pending)

-- A running client can always come to be connected, in at most two enabled events: a history of that
-- length exists, runs without a crash, and ends in a connected client.
pub Connects-again : (w : World) → IsLive w → Connects 2 w
unfolding run
Connects-again w v = elim (pending_cases w v) [
  | inl up ↦ ([], w, omega arith, over, refl, up)
  | inr (inl h) ↦
      let (history, z, n, past, r, up) = accepted w v h in
      (history, z, omega (arith, n), past, r, up)
  | inr (inr h) ↦ fired w v h
]
