-- ===== src/IoThread/Services.antt =====
-- The index of a thread's connections by service.
use text.Mathlib.TextEquality.{eq_iff}
use service_framework.Prelude.{
  ℕ, String, refl, ap, inl, inr, Bool, true, false, Option, none, some, List, [], arith,
  Option-cases, length, find, erase, IsMap, find-insert, find-erase, insert-IsMap, erase-IsMap,
  contains_of_none, contains_of_find, modify, find-modify, member, set_insert, set_erase,
  member-set_insert, member-set_erase, ◌-◌, ◌<◌, ◌≡◌, ◌&&◌, ◌∷◌, ◌==◌, string_eq, if◌then◌else◌,
  nat_eq, string_eq,
}
use service_framework.Ids.{u32_mod}
use service_framework.Conn.{Claim}
use service_framework.Conn.Loop.{IsClaim, claim_total, claim-IsClaim}
use service_framework.IoThread.{
  IoThread, add_to_service, on_new_connection, on_connection_closed, find_pipeline, find_pipelines,
}

-- The ids under a service's name.
abbrev ids_of : String → List (String × List ℕ) → List ℕ
ids_of s m = elim (find s m) [ none ↦ [] | some ids ↦ ids ]

find_pipelines-ids_of :
    (t : IoThread) (s : String) → find_pipelines t s ≡ ids_of s t.service_pipelines
unfolding find_pipelines
find_pipelines-ids_of t s = refl

member-nil : (k : ℕ) → member {K = ℕ} k [] ≡ false
unfolding member
member-nil k = refl

member-one : (id k : ℕ) → member k (id ∷ []) ≡ (id == k)
unfolding member
member-one id k = ground arith

member-modify :
    (s t : String) (k : ℕ) (f : List ℕ → List ℕ) (ids : List ℕ) (m : List (String × List ℕ))
    → find s m ≡ some ids
    → member k (ids_of t (modify s f m))
      ≡ (if string_eq.beq s t then member k (f ids) else member k (ids_of t m))
member-modify s t k f ids m h = ground (arith, find-modify s t f m)

add_new :
    (s t : String) (id k : ℕ) (m : List (String × List ℕ))
    → find s m ≡ none
    → member k (ids_of t (add_to_service s id m))
      ≡ (if string_eq.beq s t && (id == k) then true else member k (ids_of t m))
unfolding add_to_service
add_new s t id k m h = ground (
  arith,
  contains_of_none s m h,
  find-insert s t (id ∷ []) m h,
  member-one id k,
  member-nil k,
  eq_iff s t,
)

add_old :
    (s t : String) (id k : ℕ) (m : List (String × List ℕ)) (ids : List ℕ)
    → find s m ≡ some ids
    → member k (ids_of t (add_to_service s id m))
      ≡ (if string_eq.beq s t && (id == k) then true else member k (ids_of t m))
unfolding add_to_service
add_old s t id k m ids h = ground (
  arith,
  contains_of_find s m ids h,
  member-modify s t k (set_insert id) ids m h,
  member-set_insert id k ids,
  eq_iff s t,
)

member-add_to_service :
    (s t : String) (id k : ℕ) (m : List (String × List ℕ))
    → member k (ids_of t (add_to_service s id m))
      ≡ (if string_eq.beq s t && (id == k) then true else member k (ids_of t m))
member-add_to_service s t id k m = elim (Option-cases (find s m)) [
  | inl h ↦ add_new s t id k m h
  | inr (ids, h) ↦ add_old s t id k m ids h
]

member-remove :
    (s t : String) (id k : ℕ) (m : List (String × List ℕ))
    → member k (ids_of t (modify s (set_erase id) m))
      ≡ (if string_eq.beq s t && (id == k) then false else member k (ids_of t m))
member-remove s t id k m = elim (Option-cases (find s m)) [
  | inl h ↦ ground (arith, find-modify s t (set_erase id) m, member-nil k, eq_iff s t)
  | inr (ids, h) ↦
      ground
        (arith, member-modify s t k (set_erase id) ids m h, member-set_erase id k ids, eq_iff s t)
]

-- `service_of` is the service of each pipeline, as its handler gives it.
module _ (service_of : ℕ → String) where
  abbrev pub of_service : String → Option ℕ → Bool
  of_service s none = false
  of_service s (some p) = string_eq.beq (service_of p) s

  -- An id is listed under a service exactly when it is open with a pipeline of that service.
  pub record IsIndexed (t : IoThread) : Type 0 where
    pub exact :
        (s : String) (k : ℕ) → member k (find_pipelines t s) ≡ of_service s (find_pipeline t k)
    pub counter_range : t.current_conn_id < u32_mod
    pub distinct : IsMap t.pipelines

  listed :
      (t : IoThread)
      → IsIndexed t
      → (s : String) (k : ℕ)
      → member k (ids_of s t.service_pipelines) ≡ of_service s (find k t.pipelines)
  unfolding find_pipelines find_pipeline
  listed t v s k = v.exact s k

  opened_exact :
      (t : IoThread) (p : ℕ) (r : Claim)
      → IsIndexed t
      → IsClaim t.pipelines p r
      → (s : String) (k : ℕ)
      → member k (ids_of s (add_to_service (service_of p) r.conn_id t.service_pipelines))
        ≡ of_service s (find k r.table)
  opened_exact t p r v c s k = ground (
    arith,
    member-add_to_service (service_of p) s r.conn_id k t.service_pipelines,
    ap (find k) c.entered,
    find-insert r.conn_id k p t.pipelines c.was_free,
    c.was_free,
    listed t v s k,
    ap (λ i. find i t.pipelines) {x = r.conn_id} {y = k},
  )

  pub opened :
      (t : IoThread) (p : ℕ) (r : Claim)
      → IsIndexed t
      → IsClaim t.pipelines p r
      → let t' = record t {
        current_conn_id = r.current;
        pipelines = r.table;
        service_pipelines = add_to_service (service_of p) r.conn_id t.service_pipelines;
      } in
        (find_pipeline t r.conn_id ≡ none) × (find_pipeline t' r.conn_id ≡ some p) × IsIndexed t'
  unfolding find_pipelines find_pipeline
  opened t p r v c = (
    c.was_free,
    ground (
      arith,
      ap (find r.conn_id) c.entered,
      find-insert r.conn_id r.conn_id p t.pipelines c.was_free,
    ),
    record {
      exact = opened_exact t p r v c;
      counter_range = c.current_range;
      distinct = rw c.entered (insert-IsMap r.conn_id p t.pipelines c.was_free v.distinct);
    },
  )

  -- A connection opens on a thread with fewer than 2^32 - 1 connections: the call returns an id that
  -- was free, the pipeline is found under it, and the index stays exact.
  pub on_new_connection-IsIndexed :
      (t : IoThread) (p : ℕ)
      → IsIndexed t
      → length t.pipelines < u32_mod - 1
      → (t' : IoThread) × (id : ℕ) × (on_new_connection t p (service_of p) ≡ some (t', id))
        × (find_pipeline t id ≡ none)
        × (find_pipeline t' id ≡ some p)
        × IsIndexed t'
  unfolding on_new_connection
  on_new_connection-IsIndexed t p v room =
      let (r, done) = claim_total t.current_conn_id t.pipelines p v.counter_range room in
      let (free, there, index) = opened t p r v (claim-IsClaim _ _ t.pipelines p r done) in
      (_, r.conn_id, rw (done, on_new_connection), free, there, index)

  closed_exact :
      (t : IoThread) (id p : ℕ)
      → IsIndexed t
      → find id t.pipelines ≡ some p
      → (s : String) (k : ℕ)
      → member k (ids_of s (modify (service_of p) (set_erase id) t.service_pipelines))
        ≡ of_service s (find k (erase id t.pipelines))
  closed_exact t id p v h s k = ground (
    arith,
    member-remove (service_of p) s id k t.service_pipelines,
    find-erase id k t.pipelines,
    listed t v s k,
    h,
    eq_iff (service_of p) s,
    ap (λ i. find i t.pipelines) {x = id} {y = k},
  )

  -- When the connection under `id`, with pipeline `p`, closes, the index stays exact, the id is free
  -- and every other connection is as it was.
  pub on_connection_closed-IsIndexed :
      (t : IoThread) (id p : ℕ)
      → IsIndexed t
      → find_pipeline t id ≡ some p
      → let t' = (on_connection_closed t id p (service_of p)).0 in
        IsIndexed t'
        × ((k : ℕ) → find_pipeline t' k ≡ (if id == k then none else find_pipeline t k))
  unfolding on_connection_closed find_pipelines find_pipeline
  on_connection_closed-IsIndexed t id p v h = (
    record {
      exact = closed_exact t id p v h;
      counter_range = v.counter_range;
      distinct = erase-IsMap id t.pipelines v.distinct;
    },
    λ k. find-erase id k t.pipelines,
  )
