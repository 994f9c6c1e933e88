-- ===== src/Conn/Loop.antt =====
-- The loop of `OnNewConnection` ends: the numbers that it tries do not come back before the table
-- would have to hold them all.
use service_framework.Prelude.{
  ℕ, zero, suc, refl, sym, inl, inr, true, false, none, some, List, arith, leb, Bool-cases,
  Option-cases, length, find, contains, insert, erase, length-erase-lt, contains_find,
  contains-none, contains-erase_ne, ◌+◌, ◌-◌, ◌≤◌, ◌<◌, ◌≡◌, ◌∙◌, ◌≢◌, if◌then◌else◌, nat_eq,
  string_eq,
}
use service_framework.Ids.{u32_mod}
use service_framework.Conn.{Claim, candidate, advance, claim}

-- How many rounds take the counter from `c` to `goal`, at the least.
abbrev rounds_to : ℕ → ℕ → ℕ
rounds_to c goal = if leb c goal then goal - c else u32_mod - 1 - c + goal

pub candidate-lt : (c : ℕ) → candidate c < u32_mod
unfolding candidate
candidate-lt c = omega arith

pub advance-lt : (c : ℕ) → advance c < u32_mod
unfolding advance
advance-lt c = ground arith

candidate-ne : (c goal : ℕ) → c < u32_mod → goal < u32_mod → c ≢ goal → candidate c ≢ candidate goal
unfolding candidate
candidate-ne c goal hc hg h = omega arith

rounds_to-advance :
    (c goal : ℕ) → c < u32_mod → goal < u32_mod → rounds_to c goal ≤ rounds_to (advance c) goal + 1
unfolding advance
rounds_to-advance c goal hc hg = ground arith

rounds_to_self : (c : ℕ) → c < u32_mod → u32_mod - 2 ≤ rounds_to (advance c) c
unfolding advance
rounds_to_self c hc = ground arith

rounds_to_ne : (c goal n : ℕ) → suc n ≤ rounds_to c goal → c ≢ goal
rounds_to_ne c goal n h = ground arith

-- A loop that has not ended has met only numbers in the table.
claim_open :
    (fuel c : ℕ) (table : List (ℕ × ℕ)) (p : ℕ)
    → claim (suc fuel) c table p ≡ none
    → (contains (candidate c) table ≡ true) × (claim fuel (advance c) table p ≡ none)
unfolding claim
claim_open fuel c table p h = ground arith

claim_shut :
    (fuel c : ℕ) (table : List (ℕ × ℕ)) (p : ℕ)
    → contains (candidate c) table ≡ true
    → claim (suc fuel) c table p ≡ claim fuel (advance c) table p
unfolding claim
claim_shut fuel c table p h = ground arith

claim-erase :
    (fuel c goal : ℕ) (table : List (ℕ × ℕ)) (p : ℕ)
    → c < u32_mod
    → goal < u32_mod
    → fuel ≤ rounds_to c goal
    → claim fuel c table p ≡ none
    → claim fuel c (erase (candidate goal) table) p ≡ none
claim-erase zero c goal table p hc hg far h = unfold claim in refl
claim-erase (suc fuel) c goal table p hc hg far h =
    let (held, later) = claim_open fuel c table p h in
    let apart : candidate goal ≢ candidate c =
      candidate-ne goal c hg hc (λ e. rounds_to_ne c goal fuel far (sym e)) in
    claim_shut fuel c _ p (contains-erase_ne _ _ table apart ∙ held)
    ∙ claim-erase fuel (advance c) goal table p (advance-lt c) hg
        (omega (arith, far, rounds_to-advance c goal hc hg)) later

-- After `fuel` rounds without success the table has at least `fuel` entries.
claim_full :
    (fuel c : ℕ) (table : List (ℕ × ℕ)) (p : ℕ)
    → c < u32_mod
    → fuel ≤ u32_mod - 1
    → claim fuel c table p ≡ none
    → fuel ≤ length table
claim_full zero c table p hc small h = omega arith
claim_full (suc fuel) c table p hc small h =
    let (held, later) = claim_open fuel c table p h in
    let (v, there) = contains_find (candidate c) table held in
    let rest =
      claim-erase fuel (advance c) c table p (advance-lt c) hc (omega (arith, rounds_to_self c hc))
        later in
    omega (
      arith,
      claim_full fuel (advance c) (erase (candidate c) table) p (advance-lt c) (omega arith) rest,
      length-erase-lt (candidate c) table v there,
    )

-- With room in the table one round more than it has entries is enough.
pub claim_total :
    (c : ℕ) (table : List (ℕ × ℕ)) (p : ℕ)
    → c < u32_mod
    → length table < u32_mod - 1
    → (r : Claim) × (claim (length table + 1) c table p ≡ some r)
claim_total c table p hc room = elim (Option-cases (claim (length table + 1) c table p)) [
  | inl e ↦ absurd (omega (arith, claim_full (length table + 1) c table p hc (omega arith) e))
  | inr found ↦ found
]

-- What the loop returns: a number that was free, and the table with the new entry.
pub record IsClaim (table : List (ℕ × ℕ)) (pipeline : ℕ) (r : Claim) : Type 0 where
  pub id_range : r.conn_id < u32_mod
  pub current_range : r.current < u32_mod
  pub was_free : find r.conn_id table ≡ none
  pub entered : r.table ≡ insert r.conn_id pipeline table

claim_here :
    (fuel c : ℕ) (table : List (ℕ × ℕ)) (p : ℕ) (r : Claim)
    → contains (candidate c) table ≡ false
    → claim (suc fuel) c table p ≡ some r
    → IsClaim table p r
unfolding claim
claim_here fuel c table p r free h =
    ground (arith, candidate-lt c, advance-lt c, contains-none (candidate c) table free)

pub claim-IsClaim :
    (fuel c : ℕ) (table : List (ℕ × ℕ)) (p : ℕ) (r : Claim)
    → claim fuel c table p ≡ some r
    → IsClaim table p r
claim-IsClaim zero c table p r h = absurd (unfold claim in ground arith)
claim-IsClaim (suc fuel) c table p r h = elim (Bool-cases (contains (candidate c) table)) [
  | inl held ↦ claim-IsClaim fuel (advance c) table p r (sym (claim_shut fuel c table p held) ∙ h)
  | inr free ↦ claim_here fuel c table p r free h
]
