-- ===== src/Configuration.antt =====
-- `Configuration` of baselib/base/configuration.{h,cc}: a value by its key. What it asks of
-- `folly::dynamic` is a parameter; `none` is the exception of `get_ptr` on a value that is no object.
use service_framework.Prelude.{
  String, refl, Bool, false, Option, none, some, List, [], arith, All, ◌≡◌, ◌⊎◌, ◌∷◌, ◌++◌,
  if◌then◌else◌,
}

pub record Dynamic (D : Type 0) : Type 0 where
  pub null : D
  pub array_items : D → Option (List D)
  pub is_object : D → Bool
  pub get : D → String → Option D

pub record Configuration (D : Type 0) : Type 0 where
  pub dynamic_conf : D

module _ {D : Type 0} (dynamic : Dynamic D) where
  -- `Configuration()`
  abbrev pub new_configuration : Configuration D
  new_configuration = record { dynamic_conf = dynamic.null }

  -- The loop over an array: the value in the first object that has the key.
  unfoldable pub first_value : List D → String → D
  first_value [] k = dynamic.null
  first_value (v ∷ vs) k =
      let rest = first_value vs k in
      if dynamic.is_object v
      then elim (dynamic.get v k) [ none ↦ rest | some found ↦ found ]
      else rest

  unfoldable pub get_value : Configuration D → String → Option D
  get_value c k = elim (dynamic.array_items c.dynamic_conf) [
    | some vs ↦ some (first_value vs k)
    | none ↦
        if dynamic.is_object c.dynamic_conf
        then elim (dynamic.get c.dynamic_conf k) [
          | none ↦ some dynamic.null
          | some found ↦ some found
        ]
        else none
  ]

  -- A value that is no object, or has no such key.
  Lacks : String → D → Type 0
  Lacks k v = (dynamic.is_object v ≡ false) ⊎ (dynamic.get v k ≡ none)

  -- Values without the key before others change nothing, and alone they give null.
  first_value-append :
      (vs ws : List D) (k : String) → All (Lacks k) vs → first_value (vs ++ ws) k ≡ first_value ws k
  unfolding first_value Lacks
  first_value-append [] ws k h = refl
  first_value-append (v ∷ vs) ws k h = ground (arith, h.0, first_value-append vs ws k h.1)
