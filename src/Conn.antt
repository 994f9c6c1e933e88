-- ===== src/Conn.antt =====
-- baselib/net/thread_local_conn_manager.{h,cc}: the table of a thread's connections.
-- A pipeline is the number of its object; `none` of `claim` means that the fuel ran out.
pub mod Loop
pub mod Table
pub mod History
pub mod Wrap
mod Tests
use service_framework.Prelude.{
  ℕ, zero, suc, Bool, true, false, Option, none, some, List, [], length, find, contains, insert,
  erase, ◌+◌, ◌%◌, ◌∷◌, ◌==◌, if◌then◌else◌, nat_eq, string_eq,
}
use service_framework.Ids.{u32_mod, make_id, low_part}

-- The bytes of a `folly::IOBuf`.
abbrev pub IoBuf : Type 0
IoBuf = List ℕ

-- What `pipeline->write(data)` did: the pipeline and the data.
abbrev pub Write : Type 0
Write = ℕ × IoBuf

pub record ConnManager : Type 0 where
  pub thread_id : ℕ
  pub current_conn_id : ℕ
  pub pipelines : List (ℕ × ℕ)

-- The manager as it is constructed.
abbrev pub new_conn_manager : ConnManager
new_conn_manager = record { thread_id = 0; current_conn_id = 0; pipelines = [] }

unfoldable pub set_thread_id : ConnManager → ℕ → ConnManager
set_thread_id c id = record c { thread_id = id }

-- `conn_id = ++current_conn_id_`
unfoldable pub candidate : ℕ → ℕ
candidate current = (current + 1) % u32_mod

-- `current_conn_id_` after `if (conn_id == 0) ++current_conn_id_`
unfoldable pub advance : ℕ → ℕ
unfolding candidate
advance current =
    let conn_id = candidate current in if conn_id == 0 then (conn_id + 1) % u32_mod else conn_id

pub record Claim : Type 0 where
  pub conn_id : ℕ
  pub current : ℕ
  pub table : List (ℕ × ℕ)

-- The `do … while (!sucess)` loop: the first number after `current` that is free is taken.
unfoldable pub claim : ℕ → ℕ → List (ℕ × ℕ) → ℕ → Option Claim
claim zero current table pipeline = none
claim (suc fuel) current table pipeline =
    let conn_id = candidate current in
    let rest = claim fuel (advance current) table pipeline in
    if contains conn_id table
    then rest
    else some (record {
      conn_id = conn_id;
      current = advance current;
      table = insert conn_id pipeline table;
    })

unfoldable pub on_new_connection : ConnManager → ℕ → Option (ConnManager × ℕ)
on_new_connection c pipeline =
    elim (claim (length c.pipelines + 1) c.current_conn_id c.pipelines pipeline) [
      | none ↦ none
      | some r ↦ some (
        record c { current_conn_id = r.current; pipelines = r.table },
        make_id c.thread_id r.conn_id,
      )
    ]

unfoldable pub on_connection_closed : ConnManager → ℕ → ConnManager × Bool
on_connection_closed c conn_id =
    if contains (low_part conn_id) c.pipelines
    then (record c { pipelines = erase (low_part conn_id) c.pipelines }, true)
    else (c, false)

-- `true` is returned whether or not the connection is there.
unfoldable pub send_io_buf_by_conn_id : ConnManager → ℕ → IoBuf → Bool × List Write
send_io_buf_by_conn_id c conn_id buf = elim (find (low_part conn_id) c.pipelines) [
  | none ↦ (true, [])
  | some pipeline ↦ (true, (pipeline, buf) ∷ [])
]

-- `GetNextID`: the new counter and the id.
unfoldable pub get_next_id : ConnManager → ConnManager × ℕ
get_next_id c =
    let current =
      if c.current_conn_id == 0 then (c.current_conn_id + 1) % u32_mod else c.current_conn_id in
    (record c { current_conn_id = (current + 1) % u32_mod }, current)
