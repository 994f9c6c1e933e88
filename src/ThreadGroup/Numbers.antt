-- ===== src/ThreadGroup/Numbers.antt =====
-- The numbers of the threads, and the threads of each group.
use service_framework.Prelude.{
  ℕ, zero, suc, refl, sym, ap, inl, inr, Bool, true, false, none, some, List, [], append-nil, arith,
  Option-cases, length, get_elem?, ◌≡◌, ◌∙◌, ◌⊎◌, ◌∷◌, ◌++◌, if◌then◌else◌,
}
use service_framework.ThreadGroup.{
  ThreadType, ThreadGroupOption, ThreadGroup, ThreadData, ThreadGroupListManager, has_event_base,
  thread_started, threads_started, make_pool, make_thread_group, make_groups, initialize,
  new_manager,
}

-- The event bases of the threads that have one, each with its thread's number.
abbrev pub base_ids : List ThreadData → List (ℕ × ℕ)
base_ids [] = []
base_ids (d ∷ ds) = elim d.evb [ none ↦ base_ids ds | some e ↦ (e, d.thread_idx) ∷ base_ids ds ]

base_ids-append : (ds es : List ThreadData) → base_ids (ds ++ es) ≡ base_ids ds ++ base_ids es
base_ids-append [] es = refl
base_ids-append (d ∷ ds) es = ground (arith, base_ids-append ds es)

-- A thread's number is its place, and the connection manager of each event base's thread got that
-- number.
pub record IsNumbered (m : ThreadGroupListManager) : Type 0 where
  pub numbered : (i : ℕ) (d : ThreadData) → get_elem? m.thread_datas i ≡ some d → d.thread_idx ≡ i
  pub told : m.conn_thread_ids ≡ base_ids m.thread_datas

get_elem?_snoc :
    (ds : List ThreadData) (d e : ThreadData) (i : ℕ)
    → get_elem? (ds ++ d ∷ []) i ≡ some e
    → (get_elem? ds i ≡ some e) ⊎ ((i ≡ length ds) × (e ≡ d))
get_elem?_snoc [] d e zero h = inr (refl, ground (arith, h))
get_elem?_snoc [] d e (suc i) h = absurd (ground (arith, h))
get_elem?_snoc (x ∷ ds) d e zero h = inl h
get_elem?_snoc (x ∷ ds) d e (suc i) h = elim (get_elem?_snoc ds d e i h) [
  | inl k ↦ inl k
  | inr (k, same) ↦ inr (ap suc k, same)
]

told_next :
    (io : Bool) (ds : List ThreadData) (ids : List (ℕ × ℕ)) (e : ℕ) (type : ThreadType) (idx : ℕ)
    → ids ≡ base_ids ds
    → (if io then ids ++ (e, idx) ∷ [] else ids)
      ≡ base_ids (
          ds
          ++ record { group_type = type; thread_idx = idx; evb = if io then some e else none } ∷ [])
told_next true ds ids e type idx h = ap (λ l. l ++ (e, idx) ∷ []) h ∙ sym (base_ids-append ds _)
told_next false ds ids e type idx h = h ∙ sym (base_ids-append ds _ ∙ append-nil (base_ids ds))

thread_started-IsNumbered :
    (m : ThreadGroupListManager) (g : ThreadGroup) (evb : ℕ)
    → IsNumbered m
    → IsNumbered (thread_started m g evb).0
unfolding thread_started
thread_started-IsNumbered m g evb v = record {
  numbered = λ i d h. elim (get_elem?_snoc m.thread_datas _ d i h) [
    | inl k ↦ v.numbered i d k
    | inr (k, same) ↦ ap (λ e. e.thread_idx) same ∙ sym k
  ];
  told =
      told_next (has_event_base g.thread_type) m.thread_datas m.conn_thread_ids evb g.thread_type
        (length m.thread_datas) v.told;
}

threads_started-IsNumbered :
    (evbs : List ℕ) (m : ThreadGroupListManager) (g : ThreadGroup)
    → IsNumbered m
    → IsNumbered (threads_started m g evbs).0
unfolding threads_started
threads_started-IsNumbered [] m g v = v
threads_started-IsNumbered (evb ∷ evbs) m g v =
    threads_started-IsNumbered evbs _ _ (thread_started-IsNumbered m g evb v)

module _ (started : ThreadType → ℕ → List ℕ) where
  make_thread_group-IsNumbered :
      (m : ThreadGroupListManager) (type : ThreadType) (size : ℕ)
      → IsNumbered m
      → IsNumbered (make_thread_group started m type size).0
  unfolding make_thread_group
  make_thread_group-IsNumbered m type size v = elim (Option-cases (make_pool type size)) [
    | inl e ↦ rw (e, make_thread_group) v
    | inr (pool, e) ↦
        rw (e, make_thread_group) (threads_started-IsNumbered (started type size) m _ v)
  ]

  make_groups-IsNumbered :
      (os : List ThreadGroupOption) (m : ThreadGroupListManager)
      → IsNumbered m
      → IsNumbered (make_groups started m os)
  unfolding make_groups
  make_groups-IsNumbered [] m v = v
  make_groups-IsNumbered (o ∷ os) m v =
      let w = make_thread_group-IsNumbered m o.thread_type o.thread_size v in
      make_groups-IsNumbered os _ (record { numbered = w.numbered; told = w.told })

  -- Whatever options are given and whatever threads the pools report: after the constructor every
  -- thread's number is its place in `thread_datas`, and exactly the threads with an event base have
  -- had that number set in their connection manager.
  pub initialize-IsNumbered :
      (options : List ThreadGroupOption) → IsNumbered (initialize started options).0
  unfolding initialize
  initialize-IsNumbered [] = record { numbered = λ i d h. absurd (ground (arith, h)); told = refl }
  initialize-IsNumbered (o ∷ os) =
      make_groups-IsNumbered (o ∷ os) new_manager
        (record { numbered = λ i d h. absurd (ground (arith, h)); told = refl })

entry_cases :
    (x : ℕ × ℕ) (xs : List (ℕ × ℕ)) (k : ℕ) (y : ℕ × ℕ)
    → get_elem? (x ∷ xs) k ≡ some y
    → (x ≡ y) ⊎ ((i : ℕ) × (get_elem? xs i ≡ some y))
entry_cases x xs zero y h = inl (ground (arith, h))
entry_cases x xs (suc k) y h = inr (k, h)

base_ids_from :
    (ds : List ThreadData) (k evb idx : ℕ)
    → get_elem? (base_ids ds) k ≡ some (evb, idx)
    → (j : ℕ) × (d : ThreadData) × (get_elem? ds j ≡ some d)
      × (d.evb ≡ some evb)
      × (d.thread_idx ≡ idx)
base_ids_from [] k evb idx h = absurd (ground (arith, h))
base_ids_from (d ∷ ds) k evb idx h = elim (Option-cases d.evb) [
  | inl e ↦
      let (j, u, there, base, same) = base_ids_from ds k evb idx (rw e at h) in
      (suc j, u, there, base, same)
  | inr (b, e) ↦ elim (entry_cases (b, d.thread_idx) (base_ids ds) k (evb, idx) (rw e at h)) [
    | inl first ↦ (0, d, refl, e ∙ ap (λ q. some q.0) first, ap (λ q. q.1) first)
    | inr (i, later) ↦
        let (j, u, there, base, same) = base_ids_from ds i evb idx later in
        (suc j, u, there, base, same)
  ]
]

-- The thread whose connection manager was told a number has that number, and its event base.
pub IsNumbered-base :
    (m : ThreadGroupListManager) (k evb idx : ℕ)
    → IsNumbered m
    → get_elem? m.conn_thread_ids k ≡ some (evb, idx)
    → (d : ThreadData) × (get_elem? m.thread_datas idx ≡ some d) × (d.evb ≡ some evb)
IsNumbered-base m k evb idx v h =
    let (j, d, there, base, same) = base_ids_from m.thread_datas k evb idx (rw v.told at h) in
    let here : j ≡ idx = sym (v.numbered j d there) ∙ same in (d, rw here at there, base)
