-- ===== src/Handler.antt =====
-- `ConnHandler` of baselib/net/conn_handler.{h,cc}, the last handler of a pipeline, with the services
-- that it tells of its connection: `TcpServer` and `TcpClient` of baselib/net/server pass
-- `OnNewConnection` and `OnConnectionClosed` on to the manager of the thread. `none` is a call through
-- a null `service_`, or a loop that does not end.
pub mod Life
pub mod Table
pub mod Registered
mod Tests
use service_framework.Prelude.{ℕ, String, Bool, Option, none, some, List, [], ◌∷◌, if◌then◌else◌}
use service_framework.Conn.{ConnManager, IoBuf, Write, on_new_connection, on_connection_closed}

pub data ConnState : Type 0 where
  conn_none : ConnState
  conn_connected : ConnState
  conn_connected_but_disable : ConnState
  conn_closed : ConnState
  conn_error : ConnState

-- `has_service` tells that `service_` is not null.
pub record ConnHandler : Type 0 where
  pub has_service : Bool
  pub conn_id : ℕ
  pub attach_data : Option ℕ
  pub conn_state : ConnState
  pub remote_address : String

-- `ConnHandler(service)`
abbrev pub new_conn_handler : Bool → ConnHandler
new_conn_handler has_service = record {
  has_service = has_service;
  conn_id = 0;
  attach_data = none;
  conn_state = conn_none;
  remote_address = "";
}

unfoldable pub set_attach_data : ConnHandler → Option ℕ → ConnHandler
set_attach_data h v = record h { attach_data = v }

-- `OnNewConnection` of `TcpServer` and of `TcpClient`.
unfoldable pub service_on_new_connection : ConnManager → ℕ → Option (ConnManager × ℕ)
service_on_new_connection c pipeline = on_new_connection c pipeline

-- `OnConnectionClosed` of `TcpServer` and of `TcpClient`.
unfoldable pub service_on_connection_closed : ConnManager → ℕ → ConnManager × Bool
service_on_connection_closed c conn_id = on_connection_closed c conn_id

-- The log line after the `if (service_)` reads `service_->GetServiceConfig()` in any case.
unfoldable pub transport_active :
    ConnHandler → ConnManager → ℕ → String → Option (ConnHandler × ConnManager)
transport_active h c pipeline address =
    if h.has_service
    then elim (service_on_new_connection c pipeline) [
      | none ↦ none
      | some (c', id) ↦
          some
            (record h { conn_state = conn_connected; remote_address = address; conn_id = id }, c')
    ]
    else none

-- The connection's handler and the manager; `fireClose` goes on to the socket.
unfoldable pub close : ConnHandler → ConnManager → ConnHandler × ConnManager
close h c = elim h.conn_state [
  | conn_connected ↦ (
    record h { conn_state = conn_closed; remote_address = "" },
    if h.has_service then (service_on_connection_closed c h.conn_id).0 else c,
  )
  | conn_none ↦ (h, c)
  | conn_connected_but_disable ↦ (h, c)
  | conn_closed ↦ (h, c)
  | conn_error ↦ (h, c)
]

-- `none` for the message is a null pointer; a message is its first buffer, whose length is tested, and
-- those chained to it.
unfoldable pub read :
    ConnHandler → ConnManager → Option (IoBuf × List IoBuf) → ConnHandler × ConnManager
read h c none = close h c
read h c (some ([], chain)) = close h c
read h c (some (b ∷ bs, chain)) = (h, c)

-- The log lines read `service_->GetServiceConfig()`.
unfoldable pub read_eof : ConnHandler → ConnManager → Option (ConnHandler × ConnManager)
read_eof h c = if h.has_service then some (close h c) else none

unfoldable pub read_exception : ConnHandler → ConnManager → Option (ConnHandler × ConnManager)
read_exception h c = if h.has_service then some (close h c) else none

-- `fireWrite`: the data goes on unchanged.
unfoldable pub write : ConnHandler → ℕ → IoBuf → List Write
write h pipeline out = (pipeline, out) ∷ []
