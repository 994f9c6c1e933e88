-- ===== src/HttpClient/Sync.antt =====
-- `HttpClientSyncFetch`: a fiber that waits for a client. It runs up to `Wait`, and from its return on.
use service_framework.Prelude.{
  ℕ, String, Bool, true, false, Option, none, some, List, get_elem?, set, if◌then◌else◌,
}
use service_framework.Stats.{Stats, increase_at}
use service_framework.Fiber.{
  check_failed, queue_full, allocated, FiberDataManager, delete_fiber_data, wait, FiberDataInfo,
  post, alloc_fiber_data,
}
use service_framework.HttpClient.{
  HttpClient, HttpClientReplyData, HttpReplyCode, invalid, move_reply, release_ref, Url, HttpMethod,
  new_reply_data, fetch, add_ref, create_http_client, get_method, post_method,
}

-- What the callback of the client reaches. `fiber` is the place of `fiber_data`; `returned` tells that
-- the function let go of it, so that `f1.lock()` gives nothing.
pub record Caller : Type 0 where
  pub fibers : FiberDataManager
  pub fiber : ℕ
  pub reply_data : HttpClientReplyData
  pub returned : Bool

-- `f` on the data of the fiber.
unfoldable pub on_fiber : Caller → (FiberDataInfo → FiberDataInfo) → Caller
on_fiber s f =
    let m = s.fibers in
    elim (get_elem? m.objects s.fiber) [
      | none ↦ s
      | some d ↦ record s { fibers = record m { objects = set m.objects s.fiber (f d) } }
    ]

abbrev pub is_invalid : HttpReplyCode → Bool
is_invalid invalid = true
is_invalid _ = false

-- The callback.
unfoldable pub sync_callback : HttpClientReplyData → Caller → HttpClientReplyData × Caller
sync_callback reply s =
    if s.returned
    then (reply, s)
    else let moved = move_reply reply in
      let s' : Caller = record s { reply_data = moved.1 } in
      (moved.0, if is_invalid reply.result then s' else on_fiber s' (λ d. post d true))

-- The call, with the call chain of its thread as it was at the start.
pub record SyncFetch : Type 0 where
  pub client : HttpClient
  pub caller : Caller
  pub chain_back : ℕ

-- What the call makes, besides what `caller` holds: the client, which may be deleted, and the call
-- chain of the thread.
pub record Returned : Type 0 where
  pub client : HttpClient
  pub caller : Caller
  pub call_chain : ℕ

-- From `DeleteFiberData` on.
unfoldable pub finish : SyncFetch → Returned
finish q =
    let s = q.caller in
    let fibers : FiberDataManager = elim (get_elem? s.fibers.objects s.fiber) [
      | none ↦ s.fibers
      | some d ↦ (delete_fiber_data s.fibers d.fiber_id).0
    ] in
    record {
      client = release_ref q.client;
      caller = record s { fibers = fibers; returned = true };
      call_chain = q.chain_back;
    }

-- From the return of `Wait`, whose time is over when the answer is false.
unfoldable pub wake : SyncFetch → Bool → Returned
wake q rv = finish (record q { caller = on_fiber q.caller (λ d. wait d rv) })

-- A `CHECK` that ends the program, a reply at once, or a call that waits, connecting to the address.
pub data Begun : Type 0 where
  check_fails : Begun
  replies : HttpClientReplyData → FiberDataManager → Begun
  returns : Returned → Stats → Begun
  waits : SyncFetch → Stats → Option String → Begun

abbrev pub f_http : ℕ
f_http = 5

module _ (split : String → String → List String) (resolve : String → Option String) where
  -- The call up to `Wait`, behind the test of the manager; the statistics count it.
  unfoldable pub begin_with_fiber :
      FiberDataManager → ℕ → Stats → ℕ → HttpMethod → Option Url → String → String → Begun
  begin_with_fiber m fiber stats call_chain method url headers post_data =
      let s : Caller = record {
        fibers = m;
        fiber = fiber;
        reply_data = new_reply_data;
        returned = false;
      } in
      let r =
        fetch (some sync_callback) split resolve (add_ref create_http_client) s method url headers
          post_data in
      let q : SyncFetch = record { client = r.0.0; caller = r.0.1; chain_back = call_chain } in
      let stats' = increase_at stats f_http 1 in
      if is_invalid (r.0.1).reply_data.result then returns (finish q) stats' else waits q stats' r.1

  unfoldable pub sync_fetch :
      FiberDataManager → Stats → ℕ → HttpMethod → Option Url → String → String → Begun
  sync_fetch m stats call_chain method url headers post_data =
      if m.inited
      then elim (alloc_fiber_data m) [
        | check_failed ↦ check_fails
        | queue_full ↦ replies new_reply_data m
        | allocated m' fiber ↦
            begin_with_fiber m' fiber stats call_chain method url headers post_data
      ]
      else replies new_reply_data m

  unfoldable pub sync_get : FiberDataManager → Stats → ℕ → Option Url → String → Begun
  sync_get m stats call_chain url headers = sync_fetch m stats call_chain get_method url headers ""

  unfoldable pub sync_post : FiberDataManager → Stats → ℕ → Option Url → String → String → Begun
  sync_post m stats call_chain url headers post_data =
      sync_fetch m stats call_chain post_method url headers post_data
