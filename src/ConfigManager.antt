-- ===== src/ConfigManager.antt =====
-- `ConfigManager` of baselib/base/config_manager.{h,cc}, which gives each registered `Configurable` of
-- baselib/base/configurable.h its part of the configuration file. The objects behind the pointers are
-- a state `S`; `none` is an exception, of `parse` or of `SetConf`.
use Prim.Native.String.{compare}
use text.Mathlib.Text.{is_lt}
use service_framework.Prelude.{
  String, Bool, true, false, Option, none, some, List, [], find, erase, ◌∷◌, ◌>>=◌, string_eq,
  if◌then◌else◌, nat_eq, string_eq,
}

-- `SetConf(conf_name, conf)` on the object.
abbrev pub Configurable : Type 0 → Type 0 → Type 0
Configurable J S = String → J → S → Option S

pub record ConfigManager (J S : Type 0) : Type 0 where
  pub config_param : String
  pub is_watched : Bool
  pub config_items : List (String × Configurable J S)

abbrev pub new_config_manager : (J S : Type 0) → ConfigManager J S
new_config_manager J S = record { config_param = ""; is_watched = false; config_items = [] }

module _ {J S : Type 0} where
  -- `insert` of a `std::map`, which keeps its keys in their order.
  unfoldable pub map_insert :
      String
      → Configurable J S
      → List (String × Configurable J S)
      → List (String × Configurable J S)
  map_insert name item [] = (name, item) ∷ []
  map_insert name item ((k, other) ∷ items) =
      if is_lt (compare name k)
      then (name, item) ∷ (k, other) ∷ items
      else (k, other) ∷ map_insert name item items

  unfoldable pub register : ConfigManager J S → String → Configurable J S → ConfigManager J S
  register m name item = elim (find name m.config_items) [
    | none ↦ record m { config_items = map_insert name item m.config_items }
    | some other ↦ m
  ]

  unfoldable pub un_register : ConfigManager J S → String → ConfigManager J S
  un_register m name = record m { config_items = erase name m.config_items }

  module _ (json_find : J → String → Option J) where
    -- The loop of `OnConfigDataUpdated`.
    unfoldable pub update_items : List (String × Configurable J S) → J → S → Option S
    update_items [] config s = some s
    update_items ((key, item) ∷ items) config s = elim (json_find config key) [
      | none ↦ update_items items config s
      | some value ↦ elim (item key value s) [ none ↦ none | some t ↦ update_items items config t ]
    ]

    module _ (parse : String → Option J) (read_file : String → Option String) where
      unfoldable pub on_config_data_updated : ConfigManager J S → String → S → Option (Bool × S)
      on_config_data_updated m config_data s = do
        config ← parse config_data
        t ← update_items m.config_items config s
        some (true, t)

      unfoldable pub on_config_updated : ConfigManager J S → S → Option (Bool × S)
      on_config_updated m s = elim (read_file m.config_param) [
        | none ↦ some (false, s)
        | some config_data ↦ on_config_data_updated m config_data s
      ]

      -- `Initialize`
      unfoldable pub initialize :
          ConfigManager J S → String → S → Option (ConfigManager J S × Bool × S)
      initialize m param s =
          if string_eq.beq param ""
          then some (m, false, s)
          else let m' : ConfigManager J S = record m { config_param = param } in
            elim (on_config_updated m' s) [ none ↦ none | some (rv, t) ↦ some (m', rv, t) ]

  unfoldable pub start_observing_config : ConfigManager J S → ConfigManager J S
  start_observing_config m = record m { is_watched = true }
