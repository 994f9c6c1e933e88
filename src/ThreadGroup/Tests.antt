-- ===== src/ThreadGroup/Tests.antt =====
-- A small configuration, and the theorems at it.
use service_framework.Prelude.{
  ℕ, zero, suc, String, refl, Option, none, some, List, [], find, ◌≡◌, ◌∷◌, if◌then◌else◌, nat_eq,
  string_eq,
}
use service_framework.Json.{Json, ℤ, pos, negsuc}
use service_framework.ThreadGroup.{
  ThreadType, conn_accept, conn_client, conn, fiber, db, redis, io_pool, ThreadGroupOption,
  initialize, has_event_base, get_io_thread_pool_executor, add_option, set_conf, get_io_thread_size,
}
use service_framework.ThreadGroup.Options.{wanted, asked, wanted-set_conf}
use service_framework.ThreadGroup.Numbers.{IsNumbered, initialize-IsNumbered}
use service_framework.ThreadGroup.Pools.{get_io_thread_pool_executor-initialize}

-- Objects of whole numbers stand for the values of the JSON library.
data Value : Type 0 where
  number : ℤ → Value
  object : List (String × ℤ) → Value

find_value : Value → String → Option Value
find_value (number n) key = none
find_value (object m) key = elim (find key m) [ none ↦ none | some n ↦ some (number n) ]

int_of : Value → Option ℤ
int_of (number n) = some n
int_of (object m) = none

abbrev values : Json Value
values = record { find = find_value; get_int = int_of; get_string = λ v. none; items = λ v. [] }

abbrev shared : Value
shared = object (("conn", pos 4) ∷ ("accept", pos 1) ∷ ("fiber", negsuc 0) ∷ [])

abbrev shared_options : List ThreadGroupOption
shared_options =
    record { thread_type = conn; thread_size = 4 }
    ∷ record { thread_type = fiber; thread_size = 8 }
    ∷ []

reads_shared : set_conf values 0 shared [] ≡ some shared_options
unfolding set_conf add_option find_value int_of find get_io_thread_size
reads_shared = refl

wanted-set_conf_example :
    (wanted conn_accept shared_options
      ≡ elim (find_value shared "conn") [ none ↦ asked values 0 shared "accept" | some v ↦ none ])
    × (wanted conn_client shared_options
        ≡ elim (find_value shared "conn") [ none ↦ asked values 0 shared "client" | some v ↦ none ])
    × (wanted conn shared_options ≡ asked values 0 shared "conn")
    × (wanted fiber shared_options ≡ asked values 0 shared "fiber")
    × (wanted db shared_options ≡ asked values 0 shared "db")
    × (wanted redis shared_options ≡ asked values 0 shared "redis")
wanted-set_conf_example = wanted-set_conf values 0 shared shared_options reads_shared

abbrev counted : ThreadType → ℕ → List ℕ
counted type zero = []
counted type (suc n) = n ∷ counted type n

initialize-IsNumbered_example : IsNumbered (initialize counted shared_options).0
initialize-IsNumbered_example = initialize-IsNumbered counted shared_options

get_io_thread_pool_executor-initialize_example :
    get_io_thread_pool_executor (initialize counted shared_options).0 fiber ≡ (
      if has_event_base fiber
      then elim (wanted fiber shared_options) [ none ↦ none | some size ↦ some (io_pool size) ]
      else none)
get_io_thread_pool_executor-initialize_example =
    get_io_thread_pool_executor-initialize counted shared_options fiber
