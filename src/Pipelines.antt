-- ===== src/Pipelines.antt =====
-- The pipeline factories of baselib/net/conn_pipeline_factory.{h,cc}, conn_pipeline_factory_t.h and
-- simple_conn_pipeline_factory.{h,cc}: the handlers of a new pipeline, from the socket on, and the
-- settings that it is given.
use service_framework.Prelude.{ℕ, String, refl, Bool, Option, none, some, List, [], ◌*◌, ◌≡◌, ◌∷◌}
use service_framework.Handler.{ConnHandler, new_conn_handler}
use service_framework.SimpleTcp.{SimpleConnHandler}

-- A handler; `D` and `H` are the types that a template is given.
pub data Stage (D H : Type 0) : Type 0 where
  async_socket_handler : ℕ → Stage D H
  event_base_handler : Stage D H
  decoder : D → Stage D H
  last_handler : H → Stage D H

-- The addresses of the two ends are those that the socket has when the pipeline is made.
pub record Pipeline (D H : Type 0) : Type 0 where
  pub read_buffer_settings : Option (ℕ × ℕ)
  pub transport_info : Option (String × String)
  pub stages : List (Stage D H)

-- `SimpleDecode::decode`: all that is in the buffer at once, and whether there was any.
unfoldable pub simple_decode : List ℕ → Option (List ℕ)
simple_decode [] = none
simple_decode (b ∷ buf) = some (b ∷ buf)

abbrev pub SimpleDecode : Type 0
SimpleDecode = List ℕ → Option (List ℕ)

-- `ConnPipelineFactory::newPipeline`, on the socket `sock`.
unfoldable pub conn_pipeline : Bool → ℕ → Pipeline SimpleDecode ConnHandler
conn_pipeline has_service sock = record {
  read_buffer_settings = none;
  transport_info = none;
  stages =
      async_socket_handler sock
      ∷ event_base_handler
      ∷ last_handler (new_conn_handler has_service)
      ∷ [];
}

-- `ClientConnPipelineFactory::newPipeline`, with the addresses of the socket.
unfoldable pub client_conn_pipeline : Bool → ℕ → String × String → Pipeline SimpleDecode ConnHandler
client_conn_pipeline has_service sock addresses = record {
  read_buffer_settings = some (1024 * 32, 1024 * 64);
  transport_info = some addresses;
  stages =
      async_socket_handler sock
      ∷ event_base_handler
      ∷ last_handler (new_conn_handler has_service)
      ∷ [];
}

-- `ServerConnPipelineFactoryT<D, H>::newPipeline`, of a decoder and a handler made of the service.
unfoldable pub server_conn_pipeline_t : {D H : Type 0} → D → (Bool → H) → Bool → ℕ → Pipeline D H
server_conn_pipeline_t d h has_service sock = record {
  read_buffer_settings = some (1024 * 32, 1024 * 64);
  transport_info = none;
  stages = async_socket_handler sock ∷ decoder d ∷ last_handler (h has_service) ∷ [];
}

-- `ServerConnPipelineFactory::newPipeline`
unfoldable pub server_conn_pipeline : Bool → ℕ → Pipeline SimpleDecode ConnHandler
server_conn_pipeline has_service sock = record {
  read_buffer_settings = some (1024 * 32, 1024 * 64);
  transport_info = none;
  stages =
      async_socket_handler sock
      ∷ decoder simple_decode
      ∷ last_handler (new_conn_handler has_service)
      ∷ [];
}

-- `SimpleConnPipelineFactory::newPipeline`
unfoldable pub simple_conn_pipeline :
    Bool → ℕ → String × String → Pipeline SimpleDecode SimpleConnHandler
simple_conn_pipeline has_callback sock addresses = record {
  read_buffer_settings = none;
  transport_info = some addresses;
  stages =
      async_socket_handler sock
      ∷ event_base_handler
      ∷ last_handler (record { has_callback = has_callback })
      ∷ [];
}

-- `SimpleServerConnPipelineFactory::newPipeline`
unfoldable pub simple_server_conn_pipeline : Bool → ℕ → Pipeline SimpleDecode SimpleConnHandler
simple_server_conn_pipeline has_callback sock = record {
  read_buffer_settings = none;
  transport_info = none;
  stages = async_socket_handler sock ∷ last_handler (record { has_callback = has_callback }) ∷ [];
}

-- The server's factory is the template at the simple decoder and the handler of connections.
server_conn_pipeline-server_conn_pipeline_t :
    (has_service : Bool) (sock : ℕ)
    → server_conn_pipeline has_service sock
      ≡ server_conn_pipeline_t simple_decode new_conn_handler has_service sock
unfolding server_conn_pipeline server_conn_pipeline_t
server_conn_pipeline-server_conn_pipeline_t has_service sock = refl
