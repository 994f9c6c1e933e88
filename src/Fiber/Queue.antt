-- ===== src/Fiber/Queue.antt =====
-- Allocation, search and deletion in one thread's manager.
use service_framework.Prelude.{
  ℕ, refl, sym, ap, true, false, none, some, [], arith, beq_refl, length, get_elem?,
  get_elem?-append_right, find, contains, IsMap, find-insert, find-erase, length-insert,
  insert-IsMap, ◌+◌, ◌≤◌, ◌<◌, ◌≡◌, ◌∙◌, ◌≢◌, ◌↔◌, ◌∷◌, ◌==◌, if◌then◌else◌, nat_eq, string_eq,
}
use service_framework.Ids.{u32_mod, make_id, low_part, low_part-make_id, high_part-make_id}
use service_framework.Fiber.{
  idle, FiberDataInfo, FiberDataManager, get_thread_id_by_fiber_id, fiber_max_queue_size,
  next_fiber_id, allocated, add_fiber_data, alloc_fiber_data, find_fiber_data, queue_full,
  delete_fiber_data,
}

pub record IsManager (m : FiberDataManager) : Type 0 where
  pub thread_range : m.thread_id < u32_mod
  pub counter_range : m.current_fiber_id < u32_mod
  pub distinct : IsMap m.datas
  pub bounded : length m.datas ≤ fiber_max_queue_size

pub next_fiber_id_range : (c : ℕ) → (next_fiber_id c < u32_mod) × (0 < next_fiber_id c)
unfolding next_fiber_id
next_fiber_id_range c = ground arith

-- The new object, its id, and the table.
pub record Allocates (m : FiberDataManager) (m' : FiberDataManager) (d : FiberDataInfo)
    : Type 0 where
  pub stored : get_elem? m'.objects (length m.objects) ≡ some d
  pub starts_idle : d.state ≡ idle
  pub nonzero : low_part d.fiber_id ≢ 0
  pub thread : get_thread_id_by_fiber_id d.fiber_id ≡ m.thread_id
  pub found :
      (id : ℕ)
      → find_fiber_data m' id ≡ (
          if low_part d.fiber_id == low_part id
          then some (length m.objects)
          else find_fiber_data m id)
  pub keeps : IsManager m'

unfoldable pub new_data : FiberDataManager → FiberDataInfo
new_data m = record {
  fiber_id = make_id m.thread_id (next_fiber_id m.current_fiber_id);
  state = idle;
  baton_posted = false;
}

pub low-new_data :
    (m : FiberDataManager) → low_part (new_data m).fiber_id ≡ next_fiber_id m.current_fiber_id
unfolding new_data
low-new_data m = low_part-make_id m.thread_id _ (next_fiber_id_range m.current_fiber_id).0

pub stored-new_data :
    (m : FiberDataManager)
    → get_elem? (add_fiber_data m).objects (length m.objects) ≡ some (new_data m)
unfolding add_fiber_data new_data
stored-new_data m =
    let start : length m.objects + 0 ≡ length m.objects = omega arith in
    ap (get_elem? (add_fiber_data m).objects) (sym start)
    ∙ get_elem?-append_right m.objects (new_data m ∷ []) 0

add_fiber_data-IsManager :
    (m : FiberDataManager)
    → IsManager m
    → length m.datas < fiber_max_queue_size
    → find (next_fiber_id m.current_fiber_id) m.datas ≡ none
    → IsManager (add_fiber_data m)
unfolding add_fiber_data
add_fiber_data-IsManager m v room free = record {
  thread_range = v.thread_range;
  counter_range = (next_fiber_id_range m.current_fiber_id).0;
  distinct = insert-IsMap _ _ m.datas free v.distinct;
  bounded = omega (arith, length-insert _ (length m.objects) m.datas free);
}

-- `DeleteFiberData` takes out the entry of the id's low half and no other.
pub find-delete_fiber_data :
    (m : FiberDataManager) (id other : ℕ)
    → find_fiber_data (delete_fiber_data m id).0 other
      ≡ (if low_part id == low_part other then none else find_fiber_data m other)
unfolding find_fiber_data delete_fiber_data contains
find-delete_fiber_data m id other =
    ground (arith, find-erase (low_part id) (low_part other) m.datas)

pub find-delete_self :
    (m : FiberDataManager) (id : ℕ) → find_fiber_data (delete_fiber_data m id).0 id ≡ none
find-delete_self m id = find-delete_fiber_data m id id ∙ rw (beq_refl (low_part id))

-- On an initialised manager with room, and with the next number free, `AllocFiberData` returns a new
-- idle object: its id names the thread and is never 0, `FindFiberData` finds it under that id and
-- finds all else as before, and the queue stays within 4096.
pub alloc_fiber_data-Allocates :
    (m : FiberDataManager)
    → IsManager m
    → m.inited ≡ true
    → length m.datas < fiber_max_queue_size
    → find (next_fiber_id m.current_fiber_id) m.datas ≡ none
    → (m' : FiberDataManager) × (d : FiberDataInfo) × (alloc_fiber_data m
        ≡ allocated m' (length m.objects))
      × Allocates m m' d
unfolding alloc_fiber_data
alloc_fiber_data-Allocates m v ready room free = (
  add_fiber_data m,
  new_data m,
  ground arith,
  record {
    stored = stored-new_data m;
    starts_idle = unfold new_data in refl;
    nonzero = omega (arith, low-new_data m, next_fiber_id_range m.current_fiber_id);
    thread =
        unfold new_data in
        high_part-make_id m.thread_id _ v.thread_range (next_fiber_id_range m.current_fiber_id).0;
    found = λ id. rw (low-new_data m) (found id);
    keeps = add_fiber_data-IsManager m v room free;
  },
)
  where
    found :
        (id : ℕ)
        → find_fiber_data (add_fiber_data m) id ≡ (
            if next_fiber_id m.current_fiber_id == low_part id
            then some (length m.objects)
            else find_fiber_data m id)
    found id =
        unfold add_fiber_data find_fiber_data in
        find-insert (next_fiber_id m.current_fiber_id) (low_part id) (length m.objects) m.datas free

-- The limit is the constant: `AllocFiberData` refuses at 4096 entries and not before, changes nothing
-- then, and goes by no value of `max_queue_size_`.
alloc_fiber_data_limit :
    (m : FiberDataManager) (size : ℕ)
    → m.inited ≡ true
    → (alloc_fiber_data m ≡ queue_full ↔ fiber_max_queue_size ≤ length m.datas)
      × (alloc_fiber_data (record m { max_queue_size = size }) ≡ queue_full
          ↔ alloc_fiber_data m ≡ queue_full)
unfolding alloc_fiber_data
alloc_fiber_data_limit m size ready =
    ((λ h. ground arith, λ h. ground arith), (λ h. ground arith, λ h. ground arith))
