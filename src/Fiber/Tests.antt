-- ===== src/Fiber/Tests.antt =====
-- The theorems about fibers at concrete managers.
use service_framework.Prelude.{
  ℕ, refl, true, false, none, some, [], arith, get_elem?, find, contains, insert, erase, ◌<◌, ◌≡◌,
  ◌↔◌, ◌∷◌, nat_eq, string_eq,
}
use service_framework.Ids.{make_id, low_part}
use service_framework.Fiber.Reused.{alloc_on_used_id}
use service_framework.Fiber.Found.{IsKept, Reach, made, initialized, gets, find_fiber_data_lem}
use service_framework.Fiber.Threads.{
  get_fiber_data_manager_by_thread_local, new_initialized_manager,
}
use service_framework.Fiber.{
  idle, timeout, FiberDataInfo, FiberDataManager, new_fiber_data_manager, initialize, wait,
  next_fiber_id, check_failed, allocated, add_fiber_data, alloc_fiber_data, find_fiber_data,
  delete_fiber_data, delete_fiber_data_of, get_thread_id_by_fiber_id, get_fiber_manager_options,
}
use service_framework.Fiber.Wakeup.{waits, step, run}
use service_framework.Fiber.Queue.{IsManager, Allocates, alloc_fiber_data-Allocates}

abbrev fresh_data : FiberDataInfo
fresh_data = record { fiber_id = 8589934593; state = idle; baton_posted = false }

abbrev one_fiber : FiberDataManager
one_fiber = record {
  main_evb = some 40;
  thread_id = 2;
  current_fiber_id = 1;
  datas = (1, 0) ∷ [];
  objects = fresh_data ∷ [];
  fm = some (record { options = get_fiber_manager_options; attached = 40 });
  inited = true;
  max_queue_size = 1;
}

abbrev come_round : FiberDataManager
come_round = record one_fiber { current_fiber_id = 4294967295 }

one_fiber-IsManager : IsManager one_fiber
unfolding find
one_fiber-IsManager = record {
  thread_range = omega arith;
  counter_range = omega arith;
  distinct = (refl, tt);
  bounded = omega arith;
}

not_inited : alloc_fiber_data (new_fiber_data_manager 8) ≡ check_failed
unfolding alloc_fiber_data
not_inited = refl

first_fiber : alloc_fiber_data (new_initialized_manager 40 2 1) ≡ allocated one_fiber 0
unfolding alloc_fiber_data initialize add_fiber_data next_fiber_id insert make_id
first_fiber = refl

timed_out : (run fresh_data (waits false ∷ [])).state ≡ timeout
unfolding run step wait
timed_out = refl

alloc_fiber_data-Allocates_example :
    (m' : FiberDataManager) × (d : FiberDataInfo) × (alloc_fiber_data one_fiber ≡ allocated m' 1)
    × Allocates one_fiber m' d
unfolding find next_fiber_id
alloc_fiber_data-Allocates_example =
    alloc_fiber_data-Allocates one_fiber one_fiber-IsManager refl (omega arith) refl

only_one : (k n : ℕ) → find k come_round.datas ≡ some n → (k ≡ 1) × (n ≡ 0)
unfolding find
only_one k n h = ground (arith, h)

come_round-IsKept : IsKept come_round
unfolding find make_id
come_round-IsKept = record {
  thread_range = omega arith;
  distinct = (refl, tt);
  bounded = omega arith;
  empty = λ h. absurd (ground (arith, h));
  entered = λ k n h.
      let (first, place) = only_one k n h in
      rw (first, place) (omega arith, fresh_data, refl, refl);
}

alloc_on_used_id_example :
    (m' : FiberDataManager) × (d : FiberDataInfo) × (e : FiberDataInfo) × (alloc_fiber_data
        come_round
      ≡ allocated m' 1)
    × (get_elem? m'.objects 1 ≡ some d)
    × (0 < 1)
    × (get_elem? come_round.objects 0 ≡ some e)
    × (get_elem? m'.objects 0 ≡ some e)
    × (d.fiber_id ≡ e.fiber_id)
    × (get_thread_id_by_fiber_id d.fiber_id ≡ 2)
    × (find_fiber_data m' d.fiber_id ≡ some 0)
    × (find_fiber_data (delete_fiber_data m' d.fiber_id).0 d.fiber_id ≡ none)
unfolding find next_fiber_id
alloc_on_used_id_example = alloc_on_used_id come_round 0 come_round-IsKept refl (omega arith) refl

-- The manager after its first fiber, looked up with an id of another thread.
abbrev other_thread_id : ℕ
other_thread_id = 12884901889

one_fiber_found : find_fiber_data one_fiber other_thread_id ≡ some 0
unfolding find_fiber_data find low_part
one_fiber_found = refl

one_fiber-Reach : Reach one_fiber
one_fiber-Reach = gets _ one_fiber 0 first_fiber (initialized _ 40 2 (omega arith) (made 1))

find_fiber_data_lem_example :
    (d : FiberDataInfo) × (get_elem? one_fiber.objects 0 ≡ some d)
    × (low_part d.fiber_id ≡ low_part other_thread_id)
    × (get_thread_id_by_fiber_id d.fiber_id ≡ 2)
    × ((d.fiber_id ≡ other_thread_id) ↔ (2 ≡ get_thread_id_by_fiber_id other_thread_id))
find_fiber_data_lem_example =
    find_fiber_data_lem one_fiber other_thread_id 0 one_fiber-Reach one_fiber_found

fresh_manager : (get_fiber_data_manager_by_thread_local [] 7).1 ≡ new_fiber_data_manager 4096
unfolding get_fiber_data_manager_by_thread_local find
fresh_manager = refl

deleted_twice :
    (delete_fiber_data_of (delete_fiber_data_of one_fiber fresh_data).0 fresh_data).1 ≡ false
unfolding delete_fiber_data_of delete_fiber_data contains find erase low_part
deleted_twice = refl
