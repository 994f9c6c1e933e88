-- ===== src/Conn/Wrap.antt =====
-- What happens when the 32-bit counter wraps around.
use service_framework.Prelude.{
  ℕ, refl, none, some, arith, find, insert, find-insert, contains_of_none, ◌-◌, ◌<◌, ◌≡◌, ◌≢◌,
  nat_eq, string_eq,
}
use service_framework.Ids.{u32_mod, make_id, low_part, low_part-make_id}
use service_framework.Conn.{ConnManager, candidate, advance, claim, on_new_connection, get_next_id}

-- The loop tests the number, but moves the counter only: when the counter stands at 2^32 - 1 and no
-- connection has the id 0, the next connection gets the number 0, which the class calls invalid.
wrap_gives_zero :
    (c : ConnManager) (pipeline : ℕ)
    → c.current_conn_id ≡ u32_mod - 1
    → find 0 c.pipelines ≡ none
    → (c' : ConnManager) × (id : ℕ) × (on_new_connection c pipeline ≡ some (c', id))
      × (low_part id ≡ 0)
      × (find 0 c'.pipelines ≡ some pipeline)
      × (c'.current_conn_id ≡ 1)
unfolding on_new_connection claim candidate advance
wrap_gives_zero c pipeline h free = (
  record c { current_conn_id = 1; pipelines = insert 0 pipeline c.pipelines },
  make_id c.thread_id 0,
  ground (arith, contains_of_none 0 c.pipelines free),
  low_part-make_id c.thread_id 0 (omega arith),
  find-insert 0 0 pipeline c.pipelines free,
  refl,
)

-- `GetNextID` never gives 0, and leaves the counter in range.
get_next_id-ne-zero :
    (c : ConnManager)
    → c.current_conn_id < u32_mod
    → ((get_next_id c).1 ≢ 0) × ((get_next_id c).0.current_conn_id < u32_mod)
unfolding get_next_id
get_next_id-ne-zero c h = ground arith
