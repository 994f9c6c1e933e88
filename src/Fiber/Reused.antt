-- ===== src/Fiber/Reused.antt =====
-- `AllocFiberData` when the 32-bit counter has come round.
use service_framework.Prelude.{
  ℕ, zero, suc, sym, true, none, some, List, [], arith, length, get_elem?, find, insert_present,
  ◌<◌, ◌≡◌, ◌∷◌, nat_eq, string_eq,
}
use service_framework.Ids.{make_id, high_part-make_id}
use service_framework.Fiber.{
  FiberDataInfo, FiberDataManager, get_thread_id_by_fiber_id, fiber_max_queue_size, next_fiber_id,
  allocated, add_fiber_data, alloc_fiber_data, find_fiber_data, delete_fiber_data,
}
use service_framework.Fiber.Queue.{new_data, stored-new_data, low-new_data, find-delete_self}
use service_framework.Fiber.Found.{Reach, IsKept, Reach-IsKept, get_elem?_kept}

get_elem?_place :
    (xs : List FiberDataInfo) (n : ℕ) (x : FiberDataInfo) → get_elem? xs n ≡ some x → n < length xs
get_elem?_place [] n x h = absurd (ground (arith, h))
get_elem?_place (y ∷ xs) zero x h = omega arith
get_elem?_place (y ∷ xs) (suc n) x h = omega (arith, get_elem?_place xs n x h)

-- On a manager whose entries stand under the numbers in their objects' ids, as calls leave it
-- (`IsKept`), the counter comes back to a number that is still in use, for the object `e`: the new
-- object is another one, but its id is that of `e`, with the thread's number; `e` stays as it was, and
-- is what `FindFiberData` finds for the id of the new one; deleting the new one takes `e` out.
pub alloc_on_used_id :
    (m : FiberDataManager) (old : ℕ)
    → IsKept m
    → m.inited ≡ true
    → length m.datas < fiber_max_queue_size
    → find (next_fiber_id m.current_fiber_id) m.datas ≡ some old
    → (m' : FiberDataManager) × (d : FiberDataInfo) × (e : FiberDataInfo) × (alloc_fiber_data m
        ≡ allocated m' (length m.objects))
      × (get_elem? m'.objects (length m.objects) ≡ some d)
      × (old < length m.objects)
      × (get_elem? m.objects old ≡ some e)
      × (get_elem? m'.objects old ≡ some e)
      × (d.fiber_id ≡ e.fiber_id)
      × (get_thread_id_by_fiber_id d.fiber_id ≡ m.thread_id)
      × (find_fiber_data m' d.fiber_id ≡ some old)
      × (find_fiber_data (delete_fiber_data m' d.fiber_id).0 d.fiber_id ≡ none)
unfolding alloc_fiber_data
alloc_on_used_id m old v ready room used =
    let (small, e, there, same) = v.entered (next_fiber_id m.current_fiber_id) old used in
    (
      add_fiber_data m,
      new_data m,
      e,
      ground arith,
      stored-new_data m,
      get_elem?_place m.objects old e there,
      there,
      (unfold add_fiber_data new_data in get_elem?_kept m.objects e (new_data m) old there),
      (unfold new_data in sym same),
      (unfold new_data in high_part-make_id m.thread_id _ v.thread_range small),
      still,
      find-delete_self (add_fiber_data m) (new_data m).fiber_id,
    )
  where
    next : ℕ
    next = next_fiber_id m.current_fiber_id

    table : (add_fiber_data m).datas ≡ m.datas
    table = unfold add_fiber_data in insert_present next (length m.objects) old m.datas used

    still : find_fiber_data (add_fiber_data m) (new_data m).fiber_id ≡ some old
    still = unfold find_fiber_data in rw (low-new_data m, table) used

-- Calls leave such managers.
reused-Reach :
    (m : FiberDataManager) (old : ℕ)
    → Reach m
    → find (next_fiber_id m.current_fiber_id) m.datas ≡ some old
    → (e : FiberDataInfo) × (get_elem? m.objects old ≡ some e)
      × (e.fiber_id ≡ make_id m.thread_id (next_fiber_id m.current_fiber_id))
reused-Reach m old r used =
    let (small, e, there, same) = (Reach-IsKept m r).entered _ old used in (e, there, same)
