-- ===== src/Service/Online.antt =====
-- `ServiceManager::Stop`, and the sending with a callback:
-- baselib/net/service_manager.cc and baselib/net/server/tcp_client_group.cc.
use service_framework.Prelude.{
  ℕ, String, refl, ap, Bool, true, false, Option, none, some, List, [], length, ◌≡◌, ◌∷◌, ◌++◌,
}
use service_framework.Conn.{IoBuf}
use service_framework.Config.{ServiceConfig}
use service_framework.Service.{
  ServiceManager, Service, Sent, single, tcp_client_group, lookup, send_io_buf_by_name,
  group_send_io_buf, by_default,
}

-- `TcpClientGroup::Stop` stops its clients; the others are stopped themselves.
abbrev stop_service : Service → List ServiceConfig
stop_service (single c) = c ∷ []
stop_service (tcp_client_group c cs) = cs

-- The instances that `Stop` is called on; the services stay.
unfoldable pub stop_all : List (String × Service) → List ServiceConfig
stop_all [] = []
stop_all ((name, s) ∷ services) = stop_service s ++ stop_all services

unfoldable pub stop : ServiceManager → List ServiceConfig
stop m = stop_all m.services

-- `GetOnlineClients`, which leaves no client out.
abbrev get_online_clients : List ServiceConfig → List ServiceConfig
get_online_clients [] = []
get_online_clients (c ∷ cs) = c ∷ get_online_clients cs

-- `SendIOBuf(data, c)` of a group; `rand` is what `rand32` draws for the number of clients. The
-- callback runs where the data is written.
unfoldable pub group_send_with_callback : (ℕ → ℕ) → List ServiceConfig → IoBuf → Bool × List Sent
group_send_with_callback rand cs buf = elim (get_online_clients cs) [
  | [] ↦ (false, [])
  | c ∷ onlines ↦ (true, (rand (length (c ∷ onlines)), buf) ∷ [])
]

-- `SendIOBuf(service_name, data, c)`
unfoldable pub send_io_buf_with_callback :
    ServiceManager → (ℕ → ℕ) → String → IoBuf → Bool × List Sent
send_io_buf_with_callback m rand service_name buf = elim (lookup m service_name) [
  | none ↦ (false, [])
  | some (single c) ↦ (false, [])
  | some (tcp_client_group c cs) ↦ group_send_with_callback rand cs buf
]

get_online_clients-all : (cs : List ServiceConfig) → get_online_clients cs ≡ cs
get_online_clients-all [] = refl
get_online_clients-all (c ∷ cs) = ap (λ xs. c ∷ xs) (get_online_clients-all cs)

group_same :
    (connected : ℕ → Bool) (rand : ℕ → ℕ) (cs : List ServiceConfig) (buf : IoBuf)
    → group_send_with_callback rand cs buf ≡ group_send_io_buf connected rand cs buf by_default
unfolding group_send_with_callback group_send_io_buf
group_same connected rand [] buf = refl
group_same connected rand (c ∷ cs) buf =
    ap (λ xs. (true, (rand (length (c ∷ xs)), buf) ∷ [])) (get_online_clients-all cs)

send_found :
    (m : ServiceManager) (connected : ℕ → Bool) (rand : ℕ → ℕ) (service_name : String) (buf : IoBuf)
    (found : Option Service)
    → lookup m service_name ≡ found
    → send_io_buf_with_callback m rand service_name buf
      ≡ send_io_buf_by_name m connected rand service_name buf by_default
unfolding send_io_buf_with_callback send_io_buf_by_name
send_found m connected rand service_name buf none h =
    rw (h, send_io_buf_with_callback, send_io_buf_by_name) refl
send_found m connected rand service_name buf (some (single c)) h =
    rw (h, send_io_buf_with_callback, send_io_buf_by_name) refl
send_found m connected rand service_name buf (some (tcp_client_group c cs)) h =
    rw (h, send_io_buf_with_callback, send_io_buf_by_name) (group_same connected rand cs buf)

-- It is the sending by name with the default strategy.
send_io_buf_with_callback-send_io_buf_by_name :
    (m : ServiceManager) (connected : ℕ → Bool) (rand : ℕ → ℕ) (service_name : String) (buf : IoBuf)
    → send_io_buf_with_callback m rand service_name buf
      ≡ send_io_buf_by_name m connected rand service_name buf by_default
send_io_buf_with_callback-send_io_buf_by_name m connected rand service_name buf =
    send_found m connected rand service_name buf (lookup m service_name) refl
