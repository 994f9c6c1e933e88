-- ===== src/Snowflake/Sequence.antt =====
-- Ids that one worker gives out one after another.
use native.Mathlib.Decide.{ℕ_discrete}
use service_framework.Prelude.{
  ℕ, zero, suc, refl, ap, Option, none, some, [], arith, All, bit_and_low, ◌+◌, ◌*◌, ◌/◌, ◌%◌, ◌^◌,
  ◌≤◌, ◌<◌, ◌≡◌, ◌∙◌, ◌≢◌, ◌↔◌, ◌∷◌, ◌++◌,
}
use service_framework.Snowflake.{
  TimeVal, Clock, IdWorker, now_in_msec, til_next_millis, pack_id, emit_id, next_sequence,
  next_in_same_millis, get_next_id,
}
use service_framework.Snowflake.Fields.{pack_id_lem, pack_id_same_iff}

next_sequence_lem : (s : ℕ) → next_sequence s ≡ (s + 1) % 4096
unfolding next_sequence
next_sequence_lem s = omega (arith, bit_and_low 12 ((s + 1) % 2 ^ 32))

-- `tilNextMillis` returns as soon as the clock shows a later time: the readings that are not later
-- are skipped, and the first that is later is the result.
pub til_next_millis_returns :
    (last : ℕ) (early : Clock) (tv : TimeVal) (rest : Clock)
    → All (λ r. now_in_msec r ≤ last) early
    → last < now_in_msec tv
    → til_next_millis last (early ++ tv ∷ rest) ≡ some (now_in_msec tv, rest)
unfolding til_next_millis
til_next_millis_returns last [] tv rest h later = ground arith
til_next_millis_returns last (r ∷ early) tv rest h later =
    ground (arith, til_next_millis_returns last early tv rest h.1 later)

-- What `GetNextID` returns at a time, once its counter and its time are known.
abbrev pub issued : IdWorker → ℕ → ℕ → IdWorker × ℕ
issued w timestamp sequence = (
  record w { last_timestamp = timestamp; sequence_number = sequence },
  pack_id timestamp w.data_center_id w.worker_id sequence,
)

pub get_next_id_new_millis :
    (w : IdWorker) (tv : TimeVal) (clock : Clock)
    → w.last_timestamp ≢ now_in_msec tv
    → get_next_id w (tv ∷ clock)
      ≡ some ((issued w (now_in_msec tv) 0).0, (issued w (now_in_msec tv) 0).1, clock)
unfolding get_next_id emit_id
get_next_id_new_millis w tv clock h = ground arith

pub get_next_id_same_millis :
    (w : IdWorker) (tv : TimeVal) (clock : Clock)
    → w.last_timestamp ≡ now_in_msec tv
    → (w.sequence_number + 1) % 4096 ≢ 0
    → let s = (w.sequence_number + 1) % 4096 in
      get_next_id w (tv ∷ clock)
      ≡ some ((issued w (now_in_msec tv) s).0, (issued w (now_in_msec tv) s).1, clock)
unfolding get_next_id next_in_same_millis emit_id
get_next_id_same_millis w tv clock h s = ground (arith, next_sequence_lem w.sequence_number)

-- When the counter wraps, `tilNextMillis` is given the counter, 0, in place of the last time, and
-- so takes the next reading as it is.
pub get_next_id_wrap :
    (w : IdWorker) (tv tv' : TimeVal) (clock : Clock)
    → w.last_timestamp ≡ now_in_msec tv
    → (w.sequence_number + 1) % 4096 ≡ 0
    → 0 < now_in_msec tv'
    → get_next_id w (tv ∷ tv' ∷ clock)
      ≡ some ((issued w (now_in_msec tv') 0).0, (issued w (now_in_msec tv') 0).1, clock)
unfolding get_next_id next_in_same_millis emit_id til_next_millis
get_next_id_wrap w tv tv' clock h s later = ground (arith, next_sequence_lem w.sequence_number)

-- A call during which the clock stands at `tv`.
unfoldable pub call_at : IdWorker → TimeVal → Option (IdWorker × ℕ)
call_at w tv = elim (get_next_id w (tv ∷ tv ∷ [])) [
  | none ↦ none
  | some (w', id, _) ↦ some (w', id)
]

-- The worker and the id of the last of `n + 1` such calls.
unfoldable pub burst : ℕ → IdWorker → TimeVal → Option (IdWorker × ℕ)
burst zero w tv = call_at w tv
burst (suc n) w tv = elim (burst n w tv) [ none ↦ none | some (w', _) ↦ call_at w' tv ]

call_at_same :
    (w : IdWorker) (tv : TimeVal)
    → w.last_timestamp ≡ now_in_msec tv
    → 0 < now_in_msec tv
    → call_at w tv ≡ some (issued w (now_in_msec tv) ((w.sequence_number + 1) % 4096))
unfolding call_at
call_at_same w tv same later = elim (ℕ_discrete ((w.sequence_number + 1) % 4096) 0) [
  | yes wraps ↦ rw (get_next_id_wrap w tv tv [] same wraps later, call_at, wraps)
  | no stays ↦ rw (get_next_id_same_millis w tv (tv ∷ []) same stays, call_at)
]

-- While the clock stands at one millisecond, call number `n` (from 0) gives the id with the counter
-- at `n` modulo 4096, on a worker whose last id is from another millisecond: no call waits for the
-- next one.
pub burst_lem :
    (n : ℕ) (w : IdWorker) (tv : TimeVal)
    → w.last_timestamp ≢ now_in_msec tv
    → 0 < now_in_msec tv
    → burst n w tv ≡ some (issued w (now_in_msec tv) (n % 4096))
unfolding burst call_at
burst_lem zero w tv other later = rw (get_next_id_new_millis w tv (tv ∷ []) other, call_at)
burst_lem (suc n) w tv other later =
    let w' = (issued w (now_in_msec tv) (n % 4096)).0 in
    let next : (n % 4096 + 1) % 4096 ≡ suc n % 4096 = omega arith in
    rw (burst_lem n w tv other later, burst) (call_at_same w' tv refl later ∙ rw next)

abbrev pub last_id : Option (IdWorker × ℕ) → Option ℕ
last_id none = none
last_id (some (w, id)) = some id

-- Within one millisecond the ids of two calls are the same exactly when the calls are a multiple of
-- 4096 apart: the first 4096 are all different, and the next call repeats the first id.
pub burst_repeats_iff :
    (i j : ℕ) (w : IdWorker) (tv : TimeVal)
    → w.last_timestamp ≢ now_in_msec tv
    → 0 < now_in_msec tv
    → last_id (burst i w tv) ≡ last_id (burst j w tv) ↔ i % 4096 ≡ j % 4096
burst_repeats_iff i j w tv other later =
    rw (burst_lem i w tv other later, burst_lem j w tv other later)
      (
        (λ h. omega (arith, (same.0 (some_same h)).3)),
        λ h. ap some (same.1 (refl, refl, refl, ap (λ t. t % 4096) h)),
      )
  where
    t : ℕ
    t = now_in_msec tv

    same :
        pack_id t w.data_center_id w.worker_id (i % 4096)
          ≡ pack_id t w.data_center_id w.worker_id (j % 4096)
        ↔ (t % 2 ^ 25 ≡ t % 2 ^ 25)
          × (w.data_center_id % 32 ≡ w.data_center_id % 32)
          × (w.worker_id % 32 ≡ w.worker_id % 32)
          × (i % 4096 % 4096 ≡ j % 4096 % 4096)
    same = pack_id_same_iff _ _ _ _ _ _ _ _

    some_same : {a b : ℕ} → some a ≡ some b → a ≡ b
    some_same h = cc

-- The ids of a worker grow: while the clock does not go back, does not pass a multiple of 2^25
-- milliseconds, and the counter of the millisecond is not used up, the next id is greater than the
-- worker's last one.
next_id-gt :
    (w : IdWorker) (tv : TimeVal) (clock : Clock)
    → w.last_timestamp ≤ now_in_msec tv
    → w.last_timestamp / 2 ^ 25 ≡ now_in_msec tv / 2 ^ 25
    → w.sequence_number < 4096
    → (w.last_timestamp ≡ now_in_msec tv → w.sequence_number < 4095)
    → (w' : IdWorker) × (id : ℕ) × (get_next_id w (tv ∷ clock) ≡ some (w', id, clock))
      × (pack_id w.last_timestamp w.data_center_id w.worker_id w.sequence_number < id)
next_id-gt w tv clock order window range room =
    elim (ℕ_discrete w.last_timestamp (now_in_msec tv)) [
      | yes same ↦ (
        (issued w t s).0,
        (issued w t s).1,
        get_next_id_same_millis w tv clock same (omega (arith, room same)),
        omega (arith, room same, before, pack_id_lem t w.data_center_id w.worker_id s),
      )
      | no other ↦ (
        (issued w t 0).0,
        (issued w t 0).1,
        get_next_id_new_millis w tv clock other,
        omega (arith, before, pack_id_lem t w.data_center_id w.worker_id 0),
      )
    ]
  where
    t : ℕ
    t = now_in_msec tv

    s : ℕ
    s = (w.sequence_number + 1) % 4096

    before :
        pack_id w.last_timestamp w.data_center_id w.worker_id w.sequence_number
        ≡ w.last_timestamp % 2 ^ 25 * 2 ^ 22
          + w.data_center_id % 2 ^ 5 * 2 ^ 17
          + w.worker_id % 2 ^ 5 * 2 ^ 12
          + w.sequence_number % 2 ^ 12
    before = pack_id_lem w.last_timestamp w.data_center_id w.worker_id w.sequence_number
