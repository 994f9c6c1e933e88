-- ===== src/HttpClient/SyncStart.antt =====
-- `HttpClientSyncFetch` up to its wait, with the fiber that it takes.
use service_framework.Prelude.{
  ℕ, String, refl, sym, subst, inl, inr, true, Option, none, some, List, arith, Bool-cases, length,
  find, ◌<◌, ◌≡◌, ◌≢◌, ◌⊎◌, string_eq, nat_eq, string_eq,
}
use service_framework.Stats.{Stats, increase_at}
use service_framework.Fiber.{FiberDataManager, FiberDataInfo, fiber_max_queue_size, next_fiber_id}
use service_framework.Fiber.Queue.{Allocates, IsManager, alloc_fiber_data-Allocates}
use service_framework.HttpClient.{
  fetch, add_ref, release_ref, invalid, HttpMethod, Url, get_host_by_name, move_reply,
  new_rabbit_http_client, parse_headers, post_data_of,
}
use service_framework.HttpClient.Once.{IsReleased, address_of, failure}
use service_framework.HttpClient.Sync.{
  SyncFetch, begin_with_fiber, Begun, Returned, returns, waits, sync_callback, f_http, sync_fetch,
  finish,
}
use service_framework.HttpClient.SyncLife.{IsPending}

module _ (split : String → String → List String) (resolve : String → Option String) where
  -- What a call comes to: an invalid reply at once, or a wait.
  abbrev pub Outcome : FiberDataManager → Begun → ℕ → Option String → Stats → Type 0
  Outcome m b call_chain address stats =
      ((address ≡ none)
        × (r : Returned) × (b ≡ returns r stats)
        × (r.caller.reply_data ≡ failure invalid)
        × IsReleased 0 (r.client)
        × (r.call_chain ≡ call_chain))
      ⊎ ((address ≢ none)
          × (q : SyncFetch) × (b ≡ waits q stats address)
          × (v : IsPending q) × (q.caller.fiber ≡ length m.objects)
          × Allocates m q.caller.fibers v.data_of
          × (q.chain_back ≡ call_chain))

  begin_with_fiber_lem :
      (m m' : FiberDataManager) (stats : Stats) (call_chain : ℕ) (method : HttpMethod)
      (url : Option Url) (headers post_data : String) {d : FiberDataInfo}
      → Allocates m m' d
      → Outcome m
          (begin_with_fiber split resolve m'
            (length m.objects)
            stats
            call_chain
            method
            url
            headers
            post_data)
          call_chain
          (address_of resolve url)
          (increase_at stats f_http 1)
  unfolding begin_with_fiber fetch sync_callback move_reply finish add_ref release_ref
  begin_with_fiber_lem m m' stats call_chain method none headers post_data {d} h =
      inl (refl, _, refl, refl, record { counted = refl; gone = refl }, refl)
  begin_with_fiber_lem m m' stats call_chain method (some u) headers post_data {d} h =
      elim (Bool-cases (string_eq.beq (get_host_by_name resolve u.host) "")) [
        | inl e ↦ rw e (inl (refl, _, refl, refl, record { counted = refl; gone = refl }, refl))
        | inr e ↦ rw e (
            inr (
              (λ n. absurd (ground (arith, n))),
              _,
              refl,
              record {
                client = record {
                  live = refl;
                  fresh = refl;
                  empty = refl;
                  holds = refl;
                  counted = refl;
                  request =
                      new_rabbit_http_client method (parse_headers split headers)
                        (post_data_of method post_data);
                };
                there = refl;
                waits_still = refl;
                data_of = d;
                stored = h.stored;
              },
              refl,
              h,
              refl,
            ))
      ]

  -- The synchronous call with a manager that has room and a free number: an invalid URL and a host
  -- without address give INVALID at once, with the client deleted; any other URL waits for its address,
  -- with a client of two references and the fiber's object that this call has allocated (a new one, idle,
  -- that the manager finds under its own id). Both count one in the statistics and keep
  -- the call chain.
  pub sync_fetch_cases :
      (m : FiberDataManager) (stats : Stats) (call_chain : ℕ) (method : HttpMethod)
      (url : Option Url) (headers post_data : String)
      → IsManager m
      → m.inited ≡ true
      → length m.datas < fiber_max_queue_size
      → find (next_fiber_id m.current_fiber_id) m.datas ≡ none
      → Outcome m
          (sync_fetch split resolve m stats call_chain method url headers post_data)
          call_chain
          (address_of resolve url)
          (increase_at stats f_http 1)
  unfolding sync_fetch
  sync_fetch_cases m stats call_chain method url headers post_data v ready room free =
      let (m', d, eq, given) = alloc_fiber_data-Allocates m v ready room free in
      let begun : sync_fetch split resolve m stats call_chain method url headers post_data
          ≡ begin_with_fiber split resolve m' (length m.objects) stats call_chain method url headers
              post_data =
        ground (arith, ready, eq) in
      subst (λ b. Outcome m b call_chain (address_of resolve url) (increase_at stats f_http 1))
        (sym begun) (begin_with_fiber_lem m m' stats call_chain method url headers post_data given)
