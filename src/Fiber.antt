-- ===== src/Fiber.antt =====
-- `FiberDataInfo` and `FiberDataManager` of baselib/net/fiber_data_manager.{h,cc}, as they are built
-- (FIBER_OBJ_POOL and USE_TIMEOUT_HANDLER are not defined). A `shared_ptr<FiberDataInfo>` is a place
-- in `objects`, where each allocation adds one; the fiber manager `fm_` of folly is its options and
-- the event base it is attached to, and the pointers of an object to its managers are left out.
pub mod Wakeup
pub mod Queue
pub mod Threads
pub mod Found
pub mod Reused
mod Tests
use service_framework.Prelude.{
  ℕ, Bool, true, false, Option, none, some, List, [], ltb, length, find, contains, insert, erase,
  ◌+◌, ◌*◌, ◌%◌, ◌∷◌, ◌++◌, ◌==◌, if◌then◌else◌, nat_eq, string_eq,
}
use service_framework.Ids.{u32_mod, make_id, high_part, low_part}

pub data State : Type 0 where
  idle not_waiting waiting timeout posted posted_has_error : State

pub record FiberDataInfo : Type 0 where
  pub fiber_id : ℕ
  pub state : State
  pub baton_posted : Bool

unfoldable pub clear : FiberDataInfo → FiberDataInfo
clear d = record d { state = idle; baton_posted = false }

-- `Wait`: the argument is the answer of `baton.timed_wait`, false after the time is over.
unfoldable pub wait : FiberDataInfo → Bool → FiberDataInfo
wait d rv = if rv then d else record d { state = timeout }

unfoldable pub post : FiberDataInfo → Bool → FiberDataInfo
post d rc = record d { state = if rc then posted else posted_has_error; baton_posted = true }

-- `GetThreadIDByFiberID`
abbrev pub get_thread_id_by_fiber_id : ℕ → ℕ
get_thread_id_by_fiber_id fiber_id = high_part fiber_id

abbrev pub fiber_max_queue_size : ℕ
fiber_max_queue_size = 4096

abbrev pub fiber_stack_size : ℕ
fiber_stack_size = 96 * 1024

pub record FiberManagerOptions : Type 0 where
  pub stack_size : ℕ
  pub record_stack_every : ℕ
  pub max_fibers_pool_size : ℕ
  pub use_guard_pages : Bool
  pub fibers_pool_resize_period_ms : ℕ

abbrev pub get_fiber_manager_options : FiberManagerOptions
get_fiber_manager_options = record {
  stack_size = fiber_stack_size;
  record_stack_every = 100000;
  max_fibers_pool_size = 10240;
  use_guard_pages = true;
  fibers_pool_resize_period_ms = 60000;
}

-- What the code makes of folly's `FiberManager`.
pub record FiberManager : Type 0 where
  pub options : FiberManagerOptions
  pub attached : ℕ

pub record FiberDataManager : Type 0 where
  pub main_evb : Option ℕ
  pub thread_id : ℕ
  pub current_fiber_id : ℕ
  pub datas : List (ℕ × ℕ)
  pub objects : List FiberDataInfo
  pub fm : Option FiberManager
  pub inited : Bool
  pub max_queue_size : ℕ

-- `FiberDataManager(max_queue_size)`
abbrev pub new_fiber_data_manager : ℕ → FiberDataManager
new_fiber_data_manager max_queue_size = record {
  main_evb = none;
  thread_id = 0;
  current_fiber_id = 0;
  datas = [];
  objects = [];
  fm = none;
  inited = false;
  max_queue_size = max_queue_size;
}

unfoldable pub initialize : FiberDataManager → ℕ → ℕ → FiberDataManager
initialize m main_evb thread_id = if m.inited then m else record m {
  main_evb = some main_evb;
  thread_id = thread_id;
  fm = some (record { options = get_fiber_manager_options; attached = main_evb });
  inited = true;
}

-- `++current_fiber_id_; if (current_fiber_id_ == 0) ++current_fiber_id_;`
unfoldable pub next_fiber_id : ℕ → ℕ
next_fiber_id current =
    let next = (current + 1) % u32_mod in if next == 0 then (next + 1) % u32_mod else next

-- What `AllocFiberData` does: `CHECK` aborts, the empty pointer, or a new object.
pub data Alloc : Type 0 where
  check_failed : Alloc
  queue_full : Alloc
  allocated : FiberDataManager → ℕ → Alloc

unfoldable pub add_fiber_data : FiberDataManager → FiberDataManager
add_fiber_data m =
    let next = next_fiber_id m.current_fiber_id in
    record m {
      current_fiber_id = next;
      datas = insert next (length m.objects) m.datas;
      objects =
          m.objects
          ++ record { fiber_id = make_id m.thread_id next; state = idle; baton_posted = false }
            ∷ [];
    }

unfoldable pub alloc_fiber_data : FiberDataManager → Alloc
alloc_fiber_data m =
    if m.inited
    then (if ltb (length m.datas) fiber_max_queue_size
        then allocated (add_fiber_data m) (length m.objects)
        else queue_full)
    else check_failed

unfoldable pub find_fiber_data : FiberDataManager → ℕ → Option ℕ
find_fiber_data m fiber_id = find (low_part fiber_id) m.datas

unfoldable pub delete_fiber_data : FiberDataManager → ℕ → FiberDataManager × Bool
delete_fiber_data m fiber_id =
    if contains (low_part fiber_id) m.datas
    then (record m { datas = erase (low_part fiber_id) m.datas }, true)
    else (m, false)

-- `DeleteFiberData` of an object.
unfoldable pub delete_fiber_data_of : FiberDataManager → FiberDataInfo → FiberDataManager × Bool
delete_fiber_data_of m d = delete_fiber_data m d.fiber_id
