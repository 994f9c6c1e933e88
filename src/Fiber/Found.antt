-- ===== src/Fiber/Found.antt =====
-- What `FindFiberData` finds in any manager that the calls lead to.
use service_framework.Prelude.{
  ℕ, zero, suc, refl, sym, ap, subst, inl, inr, true, false, some, List, [], arith, ltb, Bool-cases,
  Option-cases, length, get_elem?, set, find, contains, insert, erase, IsMap, find-insert,
  find-erase, length-erase-le, length-insert, insert_present, insert-IsMap, erase-IsMap, ◌≤◌, ◌<◌,
  ◌≡◌, ◌∙◌, ◌↔◌, ◌⊎◌, ◌∷◌, ◌++◌, ◌==◌, nat_eq, string_eq,
}
use service_framework.Ids.{
  u32_mod, make_id, low_part, high_part, low_part-make_id, high_part-make_id, low_part_lem,
  make_id_lem,
}
use service_framework.Fiber.{
  clear, wait, post, FiberDataInfo, FiberDataManager, new_fiber_data_manager,
  get_thread_id_by_fiber_id, fiber_max_queue_size, initialize, next_fiber_id, allocated,
  add_fiber_data, alloc_fiber_data, find_fiber_data, delete_fiber_data,
}
use service_framework.Fiber.Wakeup.{Call, run, step, waits, posts, clears}
use service_framework.Fiber.Queue.{next_fiber_id_range, new_data, stored-new_data}

-- The managers that the calls lead to, `Wait`, `Post` and `Clear` of an object included.
pub data Reach : FiberDataManager → Type 0 where
  made : (size : ℕ) → Reach (new_fiber_data_manager size)
  initialized :
      (m : FiberDataManager) (main_evb thread_id : ℕ)
      → thread_id < u32_mod
      → Reach m
      → Reach (initialize m main_evb thread_id)
  gets :
      (m m' : FiberDataManager) (place : ℕ)
      → alloc_fiber_data m ≡ allocated m' place
      → Reach m
      → Reach m'
  deletes : (m : FiberDataManager) (id : ℕ) → Reach m → Reach (delete_fiber_data m id).0
  calls :
      (m : FiberDataManager) (place : ℕ) (d : FiberDataInfo) (cs : List Call)
      → get_elem? m.objects place ≡ some d
      → Reach m
      → Reach (record m { objects = set m.objects place (run d cs) })

-- An entry of the table stands under the counter's value in the id of its object.
abbrev pub Entered : FiberDataManager → Type 0
Entered m =
    (k n : ℕ)
    → find k m.datas ≡ some n
    → (k < u32_mod)
      × (d : FiberDataInfo) × (get_elem? m.objects n ≡ some d)
      × (d.fiber_id ≡ make_id m.thread_id k)

pub record IsKept (m : FiberDataManager) : Type 0 where
  pub thread_range : m.thread_id < u32_mod
  pub distinct : IsMap m.datas
  pub bounded : length m.datas ≤ fiber_max_queue_size
  pub empty : m.inited ≡ false → m.datas ≡ []
  pub entered : Entered m

nothing : (k n : ℕ) → ¬ (find {V = ℕ} k [] ≡ some n)
unfolding find
nothing k n h = ground (arith, h)

initialize-IsKept :
    (m : FiberDataManager) (main_evb thread_id : ℕ)
    → thread_id < u32_mod
    → IsKept m
    → IsKept (initialize m main_evb thread_id)
unfolding initialize
initialize-IsKept m main_evb thread_id small v = elim (Bool-cases m.inited) [
  | inl e ↦ simp e v
  | inr e ↦ simp e (record {
    thread_range = small;
    distinct = v.distinct;
    bounded = v.bounded;
    empty = λ h. v.empty e;
    entered = λ k n h. absurd (nothing k n (rw (v.empty e) at h));
  })
]

pub get_elem?_kept :
    (xs : List FiberDataInfo) (x y : FiberDataInfo) (n : ℕ)
    → get_elem? xs n ≡ some x
    → get_elem? (xs ++ y ∷ []) n ≡ some x
get_elem?_kept [] x y n h = absurd (ground (arith, h))
get_elem?_kept (z ∷ xs) x y zero h = h
get_elem?_kept (z ∷ xs) x y (suc n) h = get_elem?_kept xs x y n h

-- What is found after an insertion was there before, or is what has been inserted.
found_before :
    (k j v w : ℕ) (m : List (ℕ × ℕ))
    → find j (insert k v m) ≡ some w
    → (find j m ≡ some w) ⊎ ((k ≡ j) × (v ≡ w))
found_before k j v w m h = elim (Option-cases (find k m)) [
  | inl free ↦ elim (Bool-cases (k == j)) [
    | inl same ↦ inr (ground (arith, same), ground (arith, find-insert k j v m free, h, same))
    | inr other ↦ inl (ground (arith, find-insert k j v m free, h, other))
  ]
  | inr (old, used) ↦ inl (rw (insert_present k v old m used) at h)
]

insert_fits :
    (k v limit : ℕ) (m : List (ℕ × ℕ))
    → IsMap m
    → length m < limit
    → IsMap (insert k v m) × (length (insert k v m) ≤ limit)
insert_fits k v limit m d room = elim (Option-cases (find k m)) [
  | inl free ↦ (insert-IsMap k v m free d, omega (arith, length-insert k v m free))
  | inr (old, used) ↦ rw (insert_present k v old m used) (d, omega arith)
]

add_fiber_data-Entered : (m : FiberDataManager) → Entered m → Entered (add_fiber_data m)
unfolding add_fiber_data
add_fiber_data-Entered m v k n h =
    elim (found_before (next_fiber_id m.current_fiber_id) k (length m.objects) n m.datas h) [
      | inl before ↦
          let (small, d, there, same) = v k n before in
          (small, d, get_elem?_kept m.objects d _ n there, same)
      | inr (same, place) ↦ (
        subst (λ i. i < u32_mod) same (next_fiber_id_range m.current_fiber_id).0,
        new_data m,
        subst (λ i. get_elem? (add_fiber_data m).objects i ≡ some (new_data m)) place
            (stored-new_data m),
        unfold new_data in ap (make_id m.thread_id) same,
      )
    ]

add_fiber_data-IsKept :
    (m : FiberDataManager)
    → m.inited ≡ true
    → length m.datas < fiber_max_queue_size
    → IsKept m
    → IsKept (add_fiber_data m)
unfolding add_fiber_data
add_fiber_data-IsKept m ready room v =
    let (distinct, bounded) =
      insert_fits (next_fiber_id m.current_fiber_id) (length m.objects) fiber_max_queue_size m.datas
        v.distinct room in
    record {
      thread_range = v.thread_range;
      distinct = distinct;
      bounded = bounded;
      empty = λ h. absurd (ground (arith, h, ready));
      entered = add_fiber_data-Entered m v.entered;
    }

alloc_fiber_data-IsKept :
    (m m' : FiberDataManager) (place : ℕ)
    → alloc_fiber_data m ≡ allocated m' place
    → IsKept m
    → IsKept m'
unfolding alloc_fiber_data
alloc_fiber_data-IsKept m m' place h v = elim (Bool-cases m.inited) [
  | inl ready ↦ elim (Bool-cases (ltb (length m.datas) fiber_max_queue_size)) [
    | inl room ↦
        subst IsKept (ground (arith, h, ready, room))
          (add_fiber_data-IsKept m ready (ground (arith, room)) v)
    | inr full ↦ absurd (ground (arith, h, full, ready))
  ]
  | inr raw ↦ absurd (ground (arith, h, raw))
]

erase-nil : (k : ℕ) → erase {V = ℕ} k [] ≡ []
unfolding erase
erase-nil k = refl

delete_fiber_data-IsKept :
    (m : FiberDataManager) (id : ℕ) → IsKept m → IsKept (delete_fiber_data m id).0
unfolding delete_fiber_data
delete_fiber_data-IsKept m id v = elim (Bool-cases (contains (low_part id) m.datas)) [
  | inl e ↦ simp e (record {
    thread_range = v.thread_range;
    distinct = erase-IsMap (low_part id) m.datas v.distinct;
    bounded = omega (arith, length-erase-le (low_part id) m.datas, v.bounded);
    empty = λ raw. ap (erase (low_part id)) (v.empty raw) ∙ erase-nil (low_part id);
    entered = λ k n h. v.entered k n (ground (arith, find-erase (low_part id) k m.datas, h));
  })
  | inr e ↦ simp e v
]

step_keeps_id : (d : FiberDataInfo) (c : Call) → (step d c).fiber_id ≡ d.fiber_id
unfolding step wait post clear
step_keeps_id d (waits rv) = ground arith
step_keeps_id d (posts rc) = refl
step_keeps_id d clears = refl

run_keeps_id : (d : FiberDataInfo) (cs : List Call) → (run d cs).fiber_id ≡ d.fiber_id
unfolding run
run_keeps_id d [] = refl
run_keeps_id d (c ∷ cs) = run_keeps_id (step d c) cs ∙ step_keeps_id d c

-- `set` with an object of the same id keeps every object's id.
set_keeps_ids :
    (xs : List FiberDataInfo) (i n : ℕ) (old new d : FiberDataInfo)
    → get_elem? xs i ≡ some old
    → new.fiber_id ≡ old.fiber_id
    → get_elem? xs n ≡ some d
    → (d' : FiberDataInfo) × (get_elem? (set xs i new) n ≡ some d') × (d'.fiber_id ≡ d.fiber_id)
set_keeps_ids [] i n old new d at same h = absurd (ground (arith, h))
set_keeps_ids (x ∷ xs) zero zero old new d at same h = (new, refl, same ∙ ground (arith, at, h))
set_keeps_ids (x ∷ xs) zero (suc n) old new d at same h = (d, h, refl)
set_keeps_ids (x ∷ xs) (suc i) zero old new d at same h = (d, h, refl)
set_keeps_ids (x ∷ xs) (suc i) (suc n) old new d at same h =
    set_keeps_ids xs i n old new d at same h

calls-IsKept :
    (m : FiberDataManager) (place : ℕ) (d : FiberDataInfo) (cs : List Call)
    → get_elem? m.objects place ≡ some d
    → IsKept m
    → IsKept (record m { objects = set m.objects place (run d cs) })
calls-IsKept m place d cs there v = record {
  thread_range = v.thread_range;
  distinct = v.distinct;
  bounded = v.bounded;
  empty = v.empty;
  entered = λ k n h.
      let (small, e, stored, same) = v.entered k n h in
      let (e', stored', same') =
        set_keeps_ids m.objects place n d (run d cs) e there (run_keeps_id d cs) stored in
      (small, e', stored', same' ∙ same);
}

pub Reach-IsKept : (m : FiberDataManager) → Reach m → IsKept m
Reach-IsKept m (made size) = record {
  thread_range = omega arith;
  distinct = tt;
  bounded = omega arith;
  empty = λ h. refl;
  entered = λ k n h. absurd (nothing k n h);
}
Reach-IsKept m (initialized m0 main_evb thread_id small r) =
    initialize-IsKept m0 main_evb thread_id small (Reach-IsKept m0 r)
Reach-IsKept m (gets m0 m' place h r) = alloc_fiber_data-IsKept m0 m' place h (Reach-IsKept m0 r)
Reach-IsKept m (deletes m0 id r) = delete_fiber_data-IsKept m0 id (Reach-IsKept m0 r)
Reach-IsKept m (calls m0 place d cs there r) = calls-IsKept m0 place d cs there (Reach-IsKept m0 r)

whole_id :
    (thread id : ℕ)
    → thread < u32_mod
    → (make_id thread (low_part id) ≡ id) ↔ (thread ≡ high_part id)
whole_id thread id small =
    let low : low_part id < u32_mod = omega (arith, low_part_lem id) in
    let all = make_id_lem thread (low_part id) low in
    (
      λ h. omega (arith, h, all, low_part_lem id, small),
      λ h. omega (arith, h, all, low_part_lem id, small),
    )

-- In every manager that the calls lead to, what `FindFiberData` finds for an id is an object of this
-- thread with the same low half: the object of that very id exactly when the id names this thread.
pub find_fiber_data_lem :
    (m : FiberDataManager) (id n : ℕ)
    → Reach m
    → find_fiber_data m id ≡ some n
    → (d : FiberDataInfo) × (get_elem? m.objects n ≡ some d)
      × (low_part d.fiber_id ≡ low_part id)
      × (get_thread_id_by_fiber_id d.fiber_id ≡ m.thread_id)
      × ((d.fiber_id ≡ id) ↔ (m.thread_id ≡ get_thread_id_by_fiber_id id))
unfolding find_fiber_data
find_fiber_data_lem m id n r h =
    let v = Reach-IsKept m r in
    let (small, d, stored, same) = v.entered (low_part id) n h in
    (
      d,
      stored,
      ap low_part same ∙ low_part-make_id m.thread_id _ small,
      ap high_part same ∙ high_part-make_id m.thread_id _ v.thread_range small,
      subst (λ i. (i ≡ id) ↔ (m.thread_id ≡ high_part id)) (sym same)
          (whole_id m.thread_id id v.thread_range),
    )
