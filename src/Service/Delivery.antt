-- ===== src/Service/Delivery.antt =====
-- A message for a connection's id, from any thread to the connection.
use service_framework.Prelude.{
  ℕ, ap, true, some, [], arith, length, get_elem?, find, ◌-◌, ◌<◌, ◌≡◌, ◌∙◌, ◌∷◌, nat_eq, string_eq,
}
use service_framework.Ids.{u32_mod, high_part, low_part}
use service_framework.Conn.{ConnManager, IoBuf, on_new_connection, send_io_buf_by_conn_id}
use service_framework.Conn.Table.{IsTable, Opens, on_new_connection-Opens, find-Opens, send_some}
use service_framework.ThreadGroup.{ThreadData, get_event_base_by_thread_id}
use service_framework.ThreadGroup.Numbers.{IsNumbered, IsNumbered-base}
use service_framework.Service.{ServiceManager, send_io_buf}

find_opened :
    (c : ConnManager) (pipeline : ℕ) (c' : ConnManager) (id : ℕ)
    → Opens c pipeline c' id
    → find (low_part id) c'.pipelines ≡ some pipeline
find_opened c pipeline c' id o = ground (arith, find-Opens c pipeline c' id (low_part id) o)

posts :
    (m : ServiceManager) (d : ThreadData) (evb id : ℕ) (buf : IoBuf)
    → get_elem? m.thread_groups.thread_datas (high_part id) ≡ some d
    → d.evb ≡ some evb
    → send_io_buf m id buf ≡ some (true, (evb, id, buf) ∷ [])
unfolding send_io_buf get_event_base_by_thread_id
posts m d evb id buf there base = ground (arith, there, base)

-- A connection opens on a network thread whose connection manager `c` was told its number when the
-- thread's group was made, and has room. Then the call returns an id, and `SendIOBuf` with that id,
-- on any thread, answers true and posts one closure, to the event base of the connection's thread;
-- there the closure writes the data to the connection's pipeline and to nothing else.
pub send_io_buf-reaches :
    (m : ServiceManager) (k evb pipeline : ℕ) (c : ConnManager) (buf : IoBuf)
    → IsNumbered m.thread_groups
    → get_elem? m.thread_groups.conn_thread_ids k ≡ some (evb, c.thread_id)
    → IsTable c
    → length c.pipelines < u32_mod - 1
    → (c' : ConnManager) × (id : ℕ) × (on_new_connection c pipeline ≡ some (c', id))
      × (send_io_buf m id buf ≡ some (true, (evb, id, buf) ∷ []))
      × (send_io_buf_by_conn_id c' id buf ≡ (true, (pipeline, buf) ∷ []))
send_io_buf-reaches m k evb pipeline c buf numbered told table room =
    let (c', id, opened, o) = on_new_connection-Opens c pipeline table room in
    let (d, there, base) = IsNumbered-base m.thread_groups k evb c.thread_id numbered told in
    (
      c',
      id,
      opened,
      posts m d evb id buf (ap (get_elem? m.thread_groups.thread_datas) o.thread ∙ there) base,
      send_some c' id pipeline buf (find_opened c pipeline c' id o),
    )
