-- ===== src/Prelude/Maps.antt =====
-- `std::map` and `std::unordered_map` as association lists: `insert` keeps an entry that is there,
-- as `insert(make_pair(k, v))` does, and `contains` tells what `insert(...).second` answers. A new
-- entry stands last; the order of a map's own iteration is not kept.
use Prim.Native.Nat.{◌+◌, ◌<◌, ◌≤◌}
use mathlib.Core.Path.{◌≡◌, refl}
use mathlib.Core.Logic.{◌≢◌}
use mathlib.Core.Bool.{Bool, true, false}
use mathlib.Core.List.{List, [], ◌∷◌}
use mathlib.Core.Option
use mathlib.Core.Option.{Option, none, some}
use native.Mathlib.Omega.{arith}
use service_framework.Prelude.Tests.{Eq, if◌then◌else◌}
use service_framework.Prelude.Lists.{length}

module _ {ℓ} {K V : Type ℓ} ⦃e : Eq K⦄ where
  unfoldable pub find : K → List (K × V) → Option V
  find k [] = none
  find k ((j, v) ∷ m) = if e.beq j k then some v else find k m

  unfoldable pub contains : K → List (K × V) → Bool
  unfolding find
  contains k m = elim (find k m) [ none ↦ false | some v ↦ true ]

  unfoldable pub insert : K → V → List (K × V) → List (K × V)
  insert k v [] = (k, v) ∷ []
  insert k v ((j, w) ∷ m) = if e.beq j k then (j, w) ∷ m else (j, w) ∷ insert k v m

  unfoldable pub erase : K → List (K × V) → List (K × V)
  erase k [] = []
  erase k ((j, w) ∷ m) = let rest = erase k m in if e.beq j k then rest else (j, w) ∷ rest

  -- No key stands twice.
  abbrev pub IsMap : List (K × V) → Type ℓ
  IsMap [] = Unit
  IsMap ((k, v) ∷ m) = (find k m ≡ none) × IsMap m

module _ {ℓ} {K V : Type ℓ} ⦃e : Eq K⦄ where
  pub find-insert :
      (k j : K) (v : V) (m : List (K × V))
      → find k m ≡ none
      → find j (insert k v m) ≡ (if e.beq k j then some v else find j m)
  unfolding find insert
  find-insert k j v [] h = refl
  find-insert k j v ((i, w) ∷ m) h =
      ground (arith, find-insert k j v m, e.beq_iff i k, e.beq_iff i j, e.beq_iff k j)

  pub find-erase :
      (k j : K) (m : List (K × V)) → find j (erase k m) ≡ (if e.beq k j then none else find j m)
  unfolding find erase
  find-erase k j [] = ground arith
  find-erase k j ((i, w) ∷ m) =
      ground (arith, find-erase k j m, e.beq_iff i k, e.beq_iff i j, e.beq_iff k j)

  pub length-erase-le : (k : K) (m : List (K × V)) → length (erase k m) ≤ length m
  unfolding erase
  length-erase-le k [] = omega arith
  length-erase-le k ((i, w) ∷ m) = ground (arith, length-erase-le k m)

  pub length-erase-lt :
      (k : K) (m : List (K × V)) (v : V) → find k m ≡ some v → length (erase k m) < length m
  unfolding find erase
  length-erase-lt k [] v h = absurd (ground arith)
  length-erase-lt k ((i, w) ∷ m) v h = ground (arith, length-erase-lt k m v, length-erase-le k m)

  pub length-insert :
      (k : K) (v : V) (m : List (K × V)) → find k m ≡ none → length (insert k v m) ≡ length m + 1
  unfolding find insert
  length-insert k v [] h = omega arith
  length-insert k v ((i, w) ∷ m) h = ground (arith, length-insert k v m)

  pub insert_present : (k : K) (v w : V) (m : List (K × V)) → find k m ≡ some w → insert k v m ≡ m
  unfolding find insert
  insert_present k v w [] h = absurd (ground arith)
  insert_present k v w ((i, u) ∷ m) h = ground (arith, insert_present k v w m)

  pub insert-IsMap :
      (k : K) (v : V) (m : List (K × V)) → find k m ≡ none → IsMap m → IsMap (insert k v m)
  unfolding find insert
  insert-IsMap k v [] h d = (refl, tt)
  insert-IsMap k v ((i, w) ∷ m) h d =
      ground (arith, insert-IsMap k v m, find-insert k i v m, e.beq_iff i k, e.beq_iff k i)

  pub erase-IsMap : (k : K) (m : List (K × V)) → IsMap m → IsMap (erase k m)
  unfolding erase
  erase-IsMap k [] d = tt
  erase-IsMap k ((i, w) ∷ m) d = ground (arith, erase-IsMap k m, find-erase k i m)

  pub contains_find :
      (k : K) (m : List (K × V)) → contains k m ≡ true → (v : V) × (find k m ≡ some v)
  unfolding contains
  contains_find k m h = ground arith

  pub contains-none : (k : K) (m : List (K × V)) → contains k m ≡ false → find k m ≡ none
  unfolding contains
  contains-none k m h = ground arith

  pub contains_of_none : (k : K) (m : List (K × V)) → find k m ≡ none → contains k m ≡ false
  unfolding contains
  contains_of_none k m h = ground arith

  pub contains_of_find :
      (k : K) (m : List (K × V)) (v : V) → find k m ≡ some v → contains k m ≡ true
  unfolding contains
  contains_of_find k m v h = ground arith

  pub contains-erase_ne :
      (k j : K) (m : List (K × V)) → k ≢ j → contains j (erase k m) ≡ contains j m
  unfolding contains
  contains-erase_ne k j m h = ground (arith, find-erase k j m, e.beq_iff k j)

module _ {ℓ} {K V : Type ℓ} ⦃e : Eq K⦄ where
  -- A change of the value under a key, in place; nothing if the key is not there.
  unfoldable pub modify : K → (V → V) → List (K × V) → List (K × V)
  modify k f [] = []
  modify k f ((j, w) ∷ m) = if e.beq j k then (j, f w) ∷ m else (j, w) ∷ modify k f m

  pub find-modify :
      (k j : K) (f : V → V) (m : List (K × V))
      → find j (modify k f m) ≡ (if e.beq k j then Option.map f (find k m) else find j m)
  unfolding find modify
  find-modify k j f [] = ground arith
  find-modify k j f ((i, w) ∷ m) =
      ground (arith, find-modify k j f m, e.beq_iff i k, e.beq_iff i j, e.beq_iff k j)

-- `std::set`, with `insert` and `erase`.
module _ {ℓ} {K : Type ℓ} ⦃e : Eq K⦄ where
  unfoldable pub member : K → List K → Bool
  member k [] = false
  member k (j ∷ s) = if e.beq j k then true else member k s

  unfoldable pub set_insert : K → List K → List K
  unfolding member
  set_insert k s = if member k s then s else k ∷ s

  unfoldable pub set_erase : K → List K → List K
  set_erase k [] = []
  set_erase k (j ∷ s) = let rest = set_erase k s in if e.beq j k then rest else j ∷ rest

  pub member-set_insert :
      (k j : K) (s : List K) → member j (set_insert k s) ≡ (if e.beq k j then true else member j s)
  unfolding member set_insert
  member-set_insert k j [] = refl
  member-set_insert k j (i ∷ s) =
      ground (arith, member-set_insert k j s, e.beq_iff i k, e.beq_iff i j, e.beq_iff k j)

  pub member-set_erase :
      (k j : K) (s : List K) → member j (set_erase k s) ≡ (if e.beq k j then false else member j s)
  unfolding member set_erase
  member-set_erase k j [] = ground arith
  member-set_erase k j (i ∷ s) =
      ground (arith, member-set_erase k j s, e.beq_iff i k, e.beq_iff i j, e.beq_iff k j)
