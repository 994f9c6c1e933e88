-- ===== src/Stats/Group.antt =====
-- The methods of `Stats`: the test of the index, and the report over all counters.
use mathlib.Core.Option
use service_framework.Prelude.{
  ℕ, zero, suc, refl, ap, inl, inr, none, some, List, [], map, append-nil, arith, Option-cases,
  length, get_elem?, set, replicate, get_elem?-some, get_elem?-set-some, get_elem?-set_ne, ◌+◌, ◌%◌,
  ◌^◌, ◌≤◌, ◌<◌, ◌≡◌, ◌∙◌, ◌∷◌, ◌++◌, ◌==◌, if◌then◌else◌,
}
use service_framework.Stats.{
  Stat, Stats, Piece, text, number, increase, calc_and_restore_last_stat, on_stat, increase_at,
  calc_and_to_string, get_latest_stat, rest_pieces, all_pieces,
}

-- A method on counter `idx` changes that counter alone, and nothing if there is none.
pub on_stat_lem :
    (g : Stats) (idx j : ℕ) (f : Stat → Stat)
    → get_elem? (on_stat g idx f).stats j
      ≡ (if idx == j then Option.map f (get_elem? g.stats idx) else get_elem? g.stats j)
unfolding on_stat
on_stat_lem g idx j f = elim (Option-cases (get_elem? g.stats idx)) [
  | inl e ↦ rw (e, on_stat) (missing e)
  | inr (s, e) ↦ rw (e, on_stat) (present s e)
]
  where
    missing :
        get_elem? g.stats idx ≡ none
        → get_elem? g.stats j ≡ (if idx == j then none else get_elem? g.stats j)
    missing e = ground (arith, ap (get_elem? g.stats) {x = idx} {y = j})

    present :
        (s : Stat)
        → get_elem? g.stats idx ≡ some s
        → get_elem? (set g.stats idx (f s)) j
          ≡ (if idx == j then some (f s) else get_elem? g.stats j)
    present s e = ground (
      arith,
      get_elem?-set-some g.stats idx (f s) s e,
      get_elem?-set_ne g.stats idx j (f s),
      ap (get_elem? (set g.stats idx (f s))) {x = idx} {y = j},
    )

get_elem?_beyond : (ss : List Stat) (i : ℕ) → length ss ≤ i → get_elem? ss i ≡ none
get_elem?_beyond [] i h = refl
get_elem?_beyond (s ∷ ss) zero h = absurd (omega arith)
get_elem?_beyond (s ∷ ss) (suc i) h = get_elem?_beyond ss i (omega arith)

-- `Increase(idx, diff)` shows in `GetLatestStat(idx)`, modulo 2^64, and in no other counter.
get_latest_stat-increase_at :
    (g : Stats) (idx diff j : ℕ)
    → idx < length g.stats
    → get_latest_stat (increase_at g idx diff) j
      ≡ (if idx == j then (get_latest_stat g j + diff) % 2 ^ 64 else get_latest_stat g j)
unfolding get_latest_stat increase_at increase
get_latest_stat-increase_at g idx diff j h = ground (
  arith,
  on_stat_lem g idx j (λ s. increase s diff),
  get_elem?-some g.stats idx h,
  ap (get_elem? g.stats) {x = idx} {y = j},
)

-- An index out of range changes nothing, and reads as 0.
pub increase_at_beyond :
    (g : Stats) (idx diff : ℕ)
    → length g.stats ≤ idx
    → (increase_at g idx diff ≡ g) × (get_latest_stat g idx ≡ 0)
unfolding get_latest_stat increase_at on_stat
increase_at_beyond g idx diff h = ground (arith, get_elem?_beyond g.stats idx h)

abbrev pub numbers : List Piece → List ℕ
numbers [] = []
numbers (text s ∷ ps) = numbers ps
numbers (number n ∷ ps) = n ∷ numbers ps

numbers-append : (ps qs : List Piece) → numbers (ps ++ qs) ≡ numbers ps ++ numbers qs
numbers-append [] qs = refl
numbers-append (text s ∷ ps) qs = numbers-append ps qs
numbers-append (number n ∷ ps) qs = ap (◌∷◌ n) (numbers-append ps qs)

abbrev pub values : List Stat → List ℕ
values = map (λ s. (calc_and_restore_last_stat s).1)

abbrev pub marked : List Stat → List Stat
marked = map (λ s. (calc_and_restore_last_stat s).0)

numbers-rest_pieces : (ss : List Stat) → numbers (rest_pieces ss) ≡ values ss
unfolding rest_pieces
numbers-rest_pieces [] = refl
numbers-rest_pieces (s ∷ ss) = ap (◌∷◌ (calc_and_restore_last_stat s).1) (numbers-rest_pieces ss)

numbers-all_pieces : (ss : List Stat) → numbers (all_pieces ss) ≡ values ss
unfolding all_pieces
numbers-all_pieces [] = refl
numbers-all_pieces (s ∷ ss) = ap (◌∷◌ (calc_and_restore_last_stat s).1) (numbers-rest_pieces ss)

numbers-calc_and_to_string : (g : Stats) → numbers (calc_and_to_string g).1 ≡ values g.stats
unfolding calc_and_to_string
numbers-calc_and_to_string g =
    numbers-append (all_pieces g.stats) _ ∙ append-nil _ ∙ numbers-all_pieces g.stats

values-marked : (ss : List Stat) → values (marked ss) ≡ replicate (length ss) 0
unfolding calc_and_restore_last_stat
values-marked [] = refl
values-marked (s ∷ ss) =
    let nothing : (calc_and_restore_last_stat (calc_and_restore_last_stat s).0).1 ≡ 0 =
      ground arith in
    rw (nothing) (ap (◌∷◌ 0) (values-marked ss))

-- `CalcAndToString` writes what each counter reports, one number for each, in the order of the
-- counters; called again with nothing counted in between, it writes a 0 for each.
calc_and_to_string_twice :
    (g : Stats)
    → let (g', first) = calc_and_to_string g in
      (numbers first ≡ values g.stats)
      × (numbers (calc_and_to_string g').1 ≡ replicate (length g.stats) 0)
unfolding calc_and_to_string
calc_and_to_string_twice g = (
  numbers-calc_and_to_string g,
  numbers-calc_and_to_string (calc_and_to_string g).0 ∙ values-marked g.stats,
)
