-- ===== src/SimpleTcp.antt =====
-- `SimpleConnHandler` of baselib/net/simple_conn_handler.{h,cc} and `SimpleTcpClient` of
-- baselib/net/server/simple_tcp_client.{h,cc}: a connection without reconnects that tells callbacks.
-- `none` is a call through a null pointer, or a failed `CHECK`.
pub mod Told
use service_framework.Prelude.{
  ℕ, Bool, true, false, Option, none, some, List, [], ◌∷◌, ◌++◌, ◌==◌, if◌then◌else◌,
}
use service_framework.Conn.{IoBuf}
use service_framework.Tcp.{ClientBootstrap2, new_bootstrap, pipeline_factory, connect}

-- What the callbacks are told, with the pipeline: `SocketEventCallback`, and at the end
-- `ConnectErrorCallback`.
pub data Call : Type 0 where
  new_connection connection_closed : ℕ → Call
  connection_error : Call
  data_arrived : ℕ → IoBuf → Call
  client_connection_error : Call

abbrev tells : Bool → Call → List Call
tells has_callback call = if has_callback then call ∷ [] else []

-- The handler is the question whether `callback_` is not null.
pub record SimpleConnHandler : Type 0 where
  pub has_callback : Bool

abbrev pub clear_callback : SimpleConnHandler → SimpleConnHandler
clear_callback h = record { has_callback = false }

unfoldable pub transport_active : SimpleConnHandler → ℕ → List Call
transport_active h pipeline = tells h.has_callback (new_connection pipeline)

unfoldable pub close : SimpleConnHandler → ℕ → List Call
close h pipeline = tells h.has_callback (connection_closed pipeline)

-- `rejected` is whether `OnDataArrived` answers -1. The log line for that reads `msg`, which was moved
-- into the callback.
unfoldable pub read : SimpleConnHandler → ℕ → IoBuf → Bool → Option (List Call)
read h pipeline msg rejected =
    if h.has_callback
    then if rejected then none else some (data_arrived pipeline msg ∷ [])
    else some []

unfoldable pub read_eof : SimpleConnHandler → ℕ → List Call
read_eof h pipeline = close h pipeline

unfoldable pub read_exception : SimpleConnHandler → ℕ → List Call
read_exception h pipeline = close h pipeline

pub record SimpleTcpClient : Type 0 where
  pub connected : Bool
  pub has_callback : Bool
  pub has_connect_error_callback : Bool
  pub client : ClientBootstrap2

-- `SimpleTcpClient(base, callback, name, connect_error_callback)`
abbrev pub new_simple_tcp_client : Option ℕ → Bool → Bool → SimpleTcpClient
new_simple_tcp_client base callback connect_error_callback = record {
  connected = false;
  has_callback = callback;
  has_connect_error_callback = connect_error_callback;
  client = new_bootstrap base;
}

abbrev pub set_socket_event_callback : SimpleTcpClient → Bool → SimpleTcpClient
set_socket_event_callback c callback = record c { has_callback = callback }

abbrev pub set_connect_error_callback : SimpleTcpClient → Bool → SimpleTcpClient
set_connect_error_callback c callback = record c { has_connect_error_callback = callback }

abbrev pub clear_callbacks : SimpleTcpClient → SimpleTcpClient
clear_callbacks c = record c { has_callback = false; has_connect_error_callback = false }

-- `Connect` and `ConnectByFactory`, up to the attempt to connect; a null factory changes nothing.
unfoldable pub connect_by_factory : SimpleTcpClient → Bool → ℕ → ℕ → Option SimpleTcpClient
connect_by_factory c factory current new_pipeline =
    if factory
    then elim (connect (pipeline_factory c.client true) current new_pipeline) [
      | none ↦ none
      | some b ↦ some (record c { client = b })
    ]
    else some c

unfoldable pub simple_connect : SimpleTcpClient → ℕ → ℕ → Option SimpleTcpClient
simple_connect c current new_pipeline = connect_by_factory c true current new_pipeline

-- The `then` of both: the client becomes the manager of the pipeline.
unfoldable pub simple_connected : SimpleTcpClient → Option SimpleTcpClient
simple_connected c = elim c.client.pipeline [
  | none ↦ none
  | some p ↦ some (record c { connected = true })
]

-- The `onError` of `Connect`, and that of `ConnectByFactory`, in their orders.
unfoldable pub on_connect_error : SimpleTcpClient → List Call
on_connect_error c =
    tells c.has_connect_error_callback client_connection_error
    ++ tells c.has_callback connection_error

unfoldable pub on_connect_by_factory_error : SimpleTcpClient → List Call
on_connect_by_factory_error c =
    tells c.has_callback connection_error
    ++ tells c.has_connect_error_callback client_connection_error

unfoldable pub simple_delete_pipeline : SimpleTcpClient → ℕ → Option SimpleTcpClient
simple_delete_pipeline c pipeline = elim c.client.pipeline [
  | none ↦ none
  | some p ↦ if p == pipeline then some (record c { connected = false }) else none
]
