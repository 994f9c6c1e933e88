-- ===== src/Stats.antt =====
-- `base::Stat` and `base::Stats` of baselib/net/fiber_data_manager.h: counters that report what was
-- added since the last report. Counters are uint64_t; `<<` into a stream is a list of pieces.
pub mod Report
pub mod Group
mod Tests
use service_framework.Prelude.{
  ℕ, String, none, some, List, [], map, ltb, get_elem?, set, replicate, ◌+◌, ◌-◌, ◌%◌, ◌∷◌, ◌++◌,
  if◌then◌else◌,
}
use service_framework.Ids.{u64_mod}

pub record Stat : Type 0 where
  pub stat_name : String
  pub last_stat : ℕ
  pub stat : ℕ

abbrev pub new_stat : Stat
new_stat = record { stat_name = ""; last_stat = 0; stat = 0 }

-- `Increase()` and `Increase(diff)`
unfoldable pub increase : Stat → ℕ → Stat
increase s diff = record s { stat = (s.stat + diff) % u64_mod }

-- `Decrease()` and `Decrease(diff)`
unfoldable pub decrease : Stat → ℕ → Stat
decrease s diff = record s { stat = (s.stat + u64_mod - diff) % u64_mod }

-- The value, and the counter with the new mark.
unfoldable pub calc_and_restore_last_stat : Stat → Stat × ℕ
calc_and_restore_last_stat s =
    let calc =
      if ltb s.stat s.last_stat
      then (0xffff_ffff + u64_mod - s.last_stat + s.stat) % u64_mod
      else s.stat - s.last_stat in
    (record s { last_stat = s.stat }, calc)

pub record Stats : Type 0 where
  pub stats_name : String
  pub stats : List Stat

unfoldable pub new_stats : String → ℕ → Stats
new_stats name size = record { stats_name = name; stats = replicate size new_stat }

-- A method on `stats_[idx]` behind the test `idx < stats_.size()`.
unfoldable pub on_stat : Stats → ℕ → (Stat → Stat) → Stats
on_stat g idx f = elim (get_elem? g.stats idx) [
  | none ↦ g
  | some s ↦ record g { stats = set g.stats idx (f s) }
]

unfoldable pub init_stat : Stats → ℕ → String → Stats
init_stat g idx name = on_stat g idx (λ s. record s { stat_name = name })

unfoldable pub increase_at : Stats → ℕ → ℕ → Stats
increase_at g idx diff = on_stat g idx (λ s. increase s diff)

unfoldable pub decrease_at : Stats → ℕ → ℕ → Stats
decrease_at g idx diff = on_stat g idx (λ s. decrease s diff)

unfoldable pub calc_and_restore_at : Stats → ℕ → Stats × ℕ
calc_and_restore_at g idx = elim (get_elem? g.stats idx) [
  | none ↦ (g, 0)
  | some s ↦ (
    record g { stats = set g.stats idx (calc_and_restore_last_stat s).0 },
    (calc_and_restore_last_stat s).1,
  )
]

unfoldable pub get_latest_stat : Stats → ℕ → ℕ
get_latest_stat g idx = elim (get_elem? g.stats idx) [ none ↦ 0 | some s ↦ s.stat ]

unfoldable pub get_stats_name : Stats → ℕ → String
get_stats_name g idx = elim (get_elem? g.stats idx) [ none ↦ "" | some s ↦ s.stat_name ]

-- What is written to the stream.
pub data Piece : Type 0 where
  text : String → Piece
  number : ℕ → Piece

-- `{name:value}` behind `opening`
stat_pieces : String → Stat → List Piece
stat_pieces opening s =
    text opening
    ∷ text s.stat_name
    ∷ text ":"
    ∷ number (calc_and_restore_last_stat s).1
    ∷ text "}"
    ∷ []

-- The loop over the counters from the second on.
rest_pieces : List Stat → List Piece
unfolding stat_pieces
rest_pieces [] = []
rest_pieces (s ∷ rest) = stat_pieces ", {" s ++ rest_pieces rest

all_pieces : List Stat → List Piece
unfolding rest_pieces
all_pieces [] = []
all_pieces (s ∷ rest) = stat_pieces "{" s ++ rest_pieces rest

-- `CalcAndToString`: every counter reports, in order.
unfoldable pub calc_and_to_string : Stats → Stats × List Piece
unfolding all_pieces
calc_and_to_string g = (
  record g { stats = map (λ s. (calc_and_restore_last_stat s).0) g.stats },
  text "stats: {" ∷ text g.stats_name ∷ text ":[" ∷ (all_pieces g.stats ++ text "]}" ∷ []),
)
