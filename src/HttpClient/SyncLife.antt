-- ===== src/HttpClient/SyncLife.antt =====
-- A waiting fiber and its client: the reply first, or the end of the time first.
use service_framework.Prelude.{
  ℕ, refl, sym, ap, inl, inr, Bool, true, false, none, some, List, [], arith, Option-cases,
  get_elem?, set, get_elem?-set-some, ◌≡◌, ◌∙◌, ◌∷◌, ◌++◌,
}
use service_framework.Fiber.Queue.{find-delete_fiber_data}
use service_framework.Fiber.{FiberDataManager, FiberDataInfo, find_fiber_data, wait}
use service_framework.HttpClient.{HttpClient, new_reply_data, release_ref, HttpClientReplyData}
use service_framework.HttpClient.Reply.{
  TxEvent, on_events, detach_transaction, reply_of, on_event, later, on_events_lem,
}
use service_framework.HttpClient.Once.{IsWaiting, IsReleased, transaction_lem}
use service_framework.HttpClient.Sync.{finish, on_fiber, Returned}
use service_framework.HttpClient.Sync.{SyncFetch, Caller, sync_callback, wake}

-- A call in `Wait`, on a request of its own.
pub record IsPending (q : SyncFetch) : Type 0 where
  pub client : IsWaiting 1 q.client
  pub there : q.caller.returned ≡ false
  pub waits_still : q.caller.reply_data ≡ new_reply_data
  pub data_of : FiberDataInfo
  pub stored : get_elem? q.caller.fibers.objects q.caller.fiber ≡ some data_of

abbrev fibers_with : Caller → FiberDataInfo → FiberDataManager
fibers_with s d = record (s.fibers) { objects = set (s.fibers.objects) s.fiber d }

on_fiber_lem :
    (s : Caller) (f : FiberDataInfo → FiberDataInfo) {d : FiberDataInfo}
    → get_elem? s.fibers.objects s.fiber ≡ some d
    → on_fiber s f ≡ record s { fibers = fibers_with s (f d) }
unfolding on_fiber
on_fiber_lem s f h = ground (arith, h)

finish_lem :
    (q : SyncFetch) {d : FiberDataInfo} (id : ℕ)
    → get_elem? q.caller.fibers.objects q.caller.fiber ≡ some d
    → d.fiber_id ≡ id
    → find_fiber_data (finish q).caller.fibers id ≡ none
unfolding finish
finish_lem q {d} id h e = ground (arith, h, e, find-delete_fiber_data q.caller.fibers id id)

-- What a return leaves: the reply as it is, and no fiber under the id.
wake_lem :
    (q : SyncFetch) (rv : Bool) {d : FiberDataInfo}
    → get_elem? q.caller.fibers.objects q.caller.fiber ≡ some d
    → ((wake q rv).caller.reply_data ≡ q.caller.reply_data)
      × (find_fiber_data (wake q rv).caller.fibers d.fiber_id ≡ none)
unfolding wake finish wait
wake_lem q rv {d} h =
    let waited : FiberDataInfo = wait d rv in
    let s : Caller = record (q.caller) { fibers = fibers_with q.caller waited } in
    let stored : get_elem? s.fibers.objects s.fiber ≡ some waited =
      get_elem?-set-some q.caller.fibers.objects q.caller.fiber waited d h in
    rw (on_fiber_lem q.caller (λ d'. wait d' rv) h)
      (refl, finish_lem (record q { caller = s }) d.fiber_id stored (ground arith))

callback_after :
    (s : Caller) (reply : HttpClientReplyData) → s.returned ≡ true → (sync_callback reply s).1 ≡ s
unfolding sync_callback
callback_after s reply h = rw h refl

on_events-append :
    (seen : List TxEvent) (c : HttpClient) {d : HttpClient} (events : List TxEvent)
    → on_events c seen ≡ some d
    → on_events c (seen ++ events) ≡ on_events d events
unfolding on_events
on_events-append [] c events h = ground (arith, h)
on_events-append (e ∷ seen) c {d = z} events h = elim (Option-cases (on_event c e)) [
  | inl stops ↦ absurd (ground (arith, h, stops))
  | inr (d, eq) ↦
      let rest : on_events d seen ≡ some z = ground (arith, h, eq) in
      ground (arith, eq, on_events-append seen d events rest)
]

release_waiting : {c : HttpClient} → IsWaiting 1 c → IsWaiting 0 (release_ref c)
unfolding release_ref
release_waiting v = record {
  live = ground (arith, v.counted);
  fresh = ground (arith, v.counted, v.fresh);
  request = v.request;
  holds = ground (arith, v.counted, v.holds);
  empty = v.empty;
  counted = ground (arith, v.counted);
}

-- Releasing a reference and handling events can change places.
release_later :
    {c : HttpClient} (seen events : List TxEvent) (v : IsWaiting 1 c)
    → on_events (release_ref (later c v.request seen)) events
      ≡ on_events (release_ref c) (seen ++ events)
unfolding release_waiting release_ref
release_later {c} seen events v = sym (
    on_events-append seen (release_ref c) events (
      on_events_lem seen (release_ref c) v.request (release_waiting v).live
        (release_waiting v).holds
      ∙ ground (arith, v.counted)))

-- The time of a waiting call ends first, after any part of the transaction: the reply is the initial
-- one (NONE), the fiber is out of the manager and the call chain is restored; the rest of the
-- transaction never uses a deleted client, its callback changes nothing of the call, and the client
-- is deleted at its end.
pub timeout_first :
    (q : SyncFetch) (seen events : List TxEvent) (v : IsPending q)
    → (c : HttpClient) × (d : HttpClient) × (u : HttpClient) × (on_events q.client seen ≡ some c)
      × let r = wake (record q { client = c }) false in
        (r.caller.reply_data ≡ new_reply_data)
        × (r.call_chain ≡ q.chain_back)
        × (find_fiber_data r.caller.fibers v.data_of.fiber_id ≡ none)
        × (on_events r.client events ≡ some d)
        × (detach_transaction (some sync_callback) d r.caller ≡ some (u, r.caller))
        × IsReleased 0 u
unfolding wake finish
timeout_first q seen events v =
    let c : HttpClient = later q.client v.client.request seen in
    let r : Returned = wake (record q { client = c }) false in
    let (kept, gone) = wake_lem (record q { client = c }) false v.stored in
    let (d, u, ran, live, detached, done) =
      transaction_lem (some sync_callback) (seen ++ events) r.caller (release_waiting v.client) in
    (
      c,
      d,
      u,
      on_events_lem seen q.client v.client.request v.client.live v.client.holds,
      (
        kept ∙ v.waits_still,
        refl,
        gone,
        release_later seen events v.client ∙ ran,
        detached ∙ ap (λ t. some (u, t)) (callback_after r.caller (reply_of (seen ++ events)) refl),
        done,
      ),
    )
