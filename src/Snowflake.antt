-- ===== src/Snowflake.antt =====
-- baselib/base/snowflake_id_util.cc: 64-bit ids from the time, a data centre, a worker and a counter.
-- The clock is a list of the values that `gettimeofday` returns one after another; `none` means that
-- the list ended while the loop waited.
pub mod Fields
pub mod Sequence
pub mod Threads
pub mod Process
pub mod Unique
pub mod Fresh
mod Tests
use service_framework.Prelude.{
  ℕ, bit_and, bit_or, Option, none, some, List, [], leb, ◌+◌, ◌*◌, ◌/◌, ◌%◌, ◌^◌, ◌∷◌, ◌==◌,
  if◌then◌else◌,
}
use service_framework.Ids.{u64_mod}

-- `timeval`
pub record TimeVal : Type 0 where
  pub tv_sec : ℕ
  pub tv_usec : ℕ

abbrev pub Clock : Type 0
Clock = List TimeVal

pub record IdWorker : Type 0 where
  pub worker_id : ℕ
  pub data_center_id : ℕ
  pub last_timestamp : ℕ
  pub sequence_number : ℕ

-- `last_timestamp_` has no initial value, so it is an argument.
abbrev pub new_id_worker : ℕ → ℕ → ℕ → IdWorker
new_id_worker worker_id data_center_id last_timestamp = record {
  worker_id = worker_id;
  data_center_id = data_center_id;
  last_timestamp = last_timestamp;
  sequence_number = 0;
}

-- `nowInMsec`
unfoldable pub now_in_msec : TimeVal → ℕ
now_in_msec tv = (tv.tv_sec * 1000 + tv.tv_usec / 1000) % u64_mod

-- `tilNextMillis`: the first reading later than `last_timestamp`, and the clock after it.
unfoldable pub til_next_millis : ℕ → Clock → Option (ℕ × Clock)
til_next_millis last_timestamp [] = none
til_next_millis last_timestamp (tv ∷ clock) =
    let rest = til_next_millis last_timestamp clock in
    if leb (now_in_msec tv) last_timestamp then rest else some (now_in_msec tv, clock)

-- The value that `GetNextID` returns.
unfoldable pub pack_id : ℕ → ℕ → ℕ → ℕ → ℕ
pack_id timestamp data_center_id worker_id sequence_number =
    bit_or
      (bit_or
        (bit_or (bit_and timestamp 0x1FFFFFF * 2 ^ 22 % u64_mod)
          (bit_and data_center_id 0x1F * 2 ^ 17))
        (bit_and worker_id 0x1F * 2 ^ 12))
      (bit_and sequence_number 0xFFF)

-- The second half of `GetNextID`, from `last_timestamp_ = timestamp` on.
unfoldable pub emit_id : IdWorker → ℕ → IdWorker × ℕ
emit_id w timestamp = (
  record w { last_timestamp = timestamp },
  pack_id timestamp w.data_center_id w.worker_id w.sequence_number,
)

-- `(sequence_number_ + 1) & 0xFFF` on a uint32_t
unfoldable pub next_sequence : ℕ → ℕ
next_sequence sequence_number = bit_and ((sequence_number + 1) % 2 ^ 32) 0xFFF

unfoldable pub next_in_same_millis : IdWorker → ℕ → Clock → Option (IdWorker × ℕ × Clock)
next_in_same_millis w timestamp clock =
    let w' = record w { sequence_number = next_sequence w.sequence_number } in
    if w'.sequence_number == 0
    then elim (til_next_millis w'.sequence_number clock) [
      | none ↦ none
      | some (later, clock') ↦ some ((emit_id w' later).0, (emit_id w' later).1, clock')
    ]
    else some ((emit_id w' timestamp).0, (emit_id w' timestamp).1, clock)

unfoldable pub get_next_id : IdWorker → Clock → Option (IdWorker × ℕ × Clock)
get_next_id w [] = none
get_next_id w (tv ∷ clock) =
    let timestamp = now_in_msec tv in
    if w.last_timestamp == timestamp
    then next_in_same_millis w timestamp clock
    else let w' = record w { sequence_number = 0 } in
      some ((emit_id w' timestamp).0, (emit_id w' timestamp).1, clock)

-- The globals: worker and data centre, and the count of threads that have a worker.
pub record Globals : Type 0 where
  pub worker_id : ℕ
  pub data_center_id : ℕ
  pub thread_id : ℕ

unfoldable pub init_snowflake_worker_id : Globals → ℕ → ℕ → Globals
init_snowflake_worker_id g worker_id data_center_id = record g {
  worker_id = worker_id;
  data_center_id = data_center_id;
}

-- A thread's first use of `GetIdWorkerByThreadLocal`: `g_thread_id++` on a uint16_t.
unfoldable pub make_thread_local_worker : Globals → ℕ → Globals × IdWorker
make_thread_local_worker g last_timestamp = (
  record g { thread_id = (g.thread_id + 1) % 2 ^ 16 },
  new_id_worker g.worker_id g.thread_id last_timestamp,
)
