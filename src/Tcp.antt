-- ===== src/Tcp.antt =====
-- `TcpClient` of baselib/net/server/tcp_client.{h,cc} with its `ClientBootstrap2` of
-- baselib/net/base/client_bootstrap2.h: a connection that is made again when it fails or ends. `none`
-- is a call through a null pointer, or on an object that is gone. The time-outs are left out.
pub mod Reconnect
pub mod Live
pub mod Stopped
pub mod Calls
mod Tests
use service_framework.Prelude.{
  ℕ, Bool, true, false, Option, none, some, List, [], ◌∷◌, ◌==◌, ◌>>=◌, if◌then◌else◌,
}
use service_framework.Conn.{IoBuf, Write}

pub record ClientBootstrap2 : Type 0 where
  pub pipeline : Option ℕ
  pub has_factory : Bool
  pub base : Option ℕ

-- `ClientBootstrap2(base)`
abbrev pub new_bootstrap : Option ℕ → ClientBootstrap2
new_bootstrap base = record { pipeline = none; has_factory = false; base = base }

-- `pipelineFactory(factory)`, whether the factory is not null.
unfoldable pub pipeline_factory : ClientBootstrap2 → Bool → ClientBootstrap2
pipeline_factory b factory = record b { has_factory = factory }

-- `connect` on the event base `current`: the pipeline that the factory makes takes the place of the
-- one from before. The future that it returns is fulfilled by the callbacks below.
unfoldable pub connect : ClientBootstrap2 → ℕ → ℕ → Option ClientBootstrap2
connect b current new_pipeline =
    if b.has_factory
    then some (record b {
      base = elim b.base [ none ↦ some current | some e ↦ some e ];
      pipeline = some new_pipeline;
    })
    else none

pub record TcpClient : Type 0 where
  pub client : Option ClientBootstrap2
  pub connected : Bool
  pub stoped : Bool
  pub factory : Bool

-- `TcpClient(config, io_group)`, of the event base that the group gives.
abbrev pub new_tcp_client : Option ℕ → TcpClient
new_tcp_client base = record {
  client = some (new_bootstrap base);
  connected = false;
  stoped = false;
  factory = false;
}

unfoldable pub set_child_pipeline : TcpClient → Bool → TcpClient
set_child_pipeline c factory = record c { factory = factory }

-- The event base that `client_->getEventBase()->` calls.
unfoldable pub event_base : TcpClient → Option ℕ
event_base c = elim c.client [ none ↦ none | some b ↦ b.base ]

-- `DoConnect`, on its event base; an attempt to connect is then under way.
unfoldable pub do_connect : TcpClient → ℕ → Option TcpClient
do_connect c new_pipeline = do
  b ← c.client
  base ← b.base
  b' ← connect b base new_pipeline
  some (record c { client = some b' })

unfoldable pub start : TcpClient → ℕ → Option TcpClient
start c new_pipeline = do
  b ← c.client
  do_connect (record c { client = some (pipeline_factory b c.factory) }) new_pipeline

-- `connectSuccess` and the `then` of `DoConnect`: the pipeline is told that it is active, the client
-- becomes its manager and is connected. The callback holds a pointer to the bootstrap.
unfoldable pub connect_success : TcpClient → Option (TcpClient × ℕ)
connect_success c = do
  b ← c.client
  pipeline ← b.pipeline
  some (record c { connected = true }, pipeline)

-- `connectErr` and the `onError` of `DoConnect`: a timer is set, on the event base given.
unfoldable pub connect_err : TcpClient → Option ℕ
connect_err c = event_base c

-- `deletePipeline`: the client, and the event base of the timer that is set, if one is. The `CHECK`
-- ends the program for another pipeline.
unfoldable pub delete_pipeline : TcpClient → ℕ → Option (TcpClient × Option ℕ)
delete_pipeline c pipeline = do
  b ← c.client
  current ← b.pipeline
  if current == pipeline
      then if c.stoped
        then some (record c { connected = false }, none)
        else elim b.base [ none ↦ none | some e ↦ some (record c { connected = false }, some e) ]
      else none

-- What `close()` of the pipeline does in `Stop`. `tells` is whether it calls `deletePipeline` of its
-- manager before it returns, which wangle decides.
unfoldable pub close_pipeline : Bool → TcpClient → Option (TcpClient × Option ℕ)
close_pipeline tells c = do
  b ← c.client
  pipeline ← b.pipeline
  if tells then delete_pipeline c pipeline else some (c, none)

-- `Stop`: the client, and the event base of the timer that is set, if one is.
unfoldable pub stop : Bool → TcpClient → Option (TcpClient × Option ℕ)
stop tells c = do
  base ← event_base c
  let c' = record c { stoped = true }
  r ← if c.connected then close_pipeline tells c' else some (c', none)
  some (record (r.0) { client = none }, r.1)

-- `SendIOBufThreadSafe` posts a closure on the event base given; `run_send` is the closure.
unfoldable pub send_io_buf_thread_safe : TcpClient → Option ℕ
send_io_buf_thread_safe c = event_base c

unfoldable pub run_send : TcpClient → IoBuf → Option (List Write)
run_send c buf =
    if c.connected
    then elim c.client [
      | none ↦ none
      | some b ↦ elim b.pipeline [ none ↦ none | some pipeline ↦ some ((pipeline, buf) ∷ []) ]
    ]
    else some []
