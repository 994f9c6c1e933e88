-- ===== src/Handler/Tests.antt =====
-- A thread on which a connection opens and ends, and the theorems at it.
use service_framework.Prelude.{
  refl, true, [], arith, find, contains, insert, ◌∷◌, nat_eq, string_eq,
}
use service_framework.Ids.{make_id}
use service_framework.Conn.{
  ConnManager, new_conn_manager, candidate, advance, claim, on_new_connection,
}
use service_framework.Handler.{
  ConnHandler, conn_connected, new_conn_handler, service_on_new_connection, transport_active, close,
  read_eof,
}
use service_framework.Handler.Life.{NetThread, after, ◌⟶◌, activates, ends, here, next}
use service_framework.Handler.Table.{IsRegistered}
use service_framework.Handler.Registered.{Reach-IsRegistered}

abbrev quiet : NetThread
quiet = record { manager = new_conn_manager; handlers = λ p. new_conn_handler true }

quiet-IsRegistered : IsRegistered quiet
unfolding find
quiet-IsRegistered = record {
  table = record { thread_range = omega arith; counter_range = omega arith; distinct = tt };
  served = λ p. refl;
  listed = λ k p h. absurd (ground (arith, h));
  held = λ p h. absurd (ground (arith, h));
}

abbrev answered : ConnHandler × ConnManager
answered = (
  record (new_conn_handler true) {
    conn_state = conn_connected;
    remote_address = "10.0.0.7";
    conn_id = 1;
  },
  record { thread_id = 0; current_conn_id = 1; pipelines = (1, 9) ∷ [] },
)

abbrev one_up : NetThread
one_up = after quiet 9 answered

goes_up : quiet ⟶ one_up
unfolding transport_active service_on_new_connection on_new_connection claim candidate advance
    contains insert make_id
goes_up = activates quiet 9 "10.0.0.7" answered refl refl

abbrev down_again : NetThread
down_again = after one_up 9 (close (one_up.handlers 9) one_up.manager)

goes_down : one_up ⟶ down_again
unfolding read_eof
goes_down = ends one_up 9 (close (one_up.handlers 9) one_up.manager) refl

Reach-IsRegistered_example : IsRegistered down_again
Reach-IsRegistered_example =
    Reach-IsRegistered quiet-IsRegistered (next (next here goes_up) goes_down)
