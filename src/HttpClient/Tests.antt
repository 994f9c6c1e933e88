-- ===== src/HttpClient/Tests.antt =====
-- Requests to one host, and the theorems at them.
use service_framework.Prelude.{
  ℕ, String, refl, true, false, Option, none, some, List, [], arith, beq_refl, find, ◌+◌, ◌≡◌, ◌∷◌,
  string_eq, if◌then◌else◌, nat_eq, string_eq,
}
use service_framework.Stats.{new_stats, increase_at}
use service_framework.Fiber.{
  FiberDataManager, FiberDataInfo, new_fiber_data_manager, find_fiber_data, idle, next_fiber_id,
}
use service_framework.Fiber.Queue.{IsManager}
use service_framework.HttpClient.{
  get_host_by_name, HttpClient, create_http_client, Url, HttpClientReplyData,
  new_rabbit_http_client, get_method, ok, new_reply_data,
}
use service_framework.HttpClient.Reply.{
  TxEvent, on_events, headers_complete, reply_of, body_chunk, detach_transaction, eom,
}
use service_framework.HttpClient.Once.{IsWaiting, IsReleased}
use service_framework.HttpClient.Sync.{SyncFetch, sync_fetch, wake, sync_callback, f_http}
use service_framework.HttpClient.SyncLife.{IsPending, timeout_first}
use service_framework.HttpClient.SyncStart.{Outcome, sync_fetch_cases}
use service_framework.HttpClient.Headers.{default_headers_complete, default_headers, has_header}

-- A `split` that finds no separator.
abbrev no_split : String → String → List String
no_split separator text = text ∷ []

abbrev one_host : String → Option String
one_host host = if string_eq.beq host "example.org" then some "93.184.216.34" else none

abbrev page : Url
page = record {
  host = "example.org";
  host_and_port = "example.org:80";
  relative = "/";
  secure = false;
}

abbrev keep : Option (
    HttpClientReplyData → List HttpClientReplyData → HttpClientReplyData × List HttpClientReplyData)
keep = some (λ r replies. (r, r ∷ replies))

abbrev asking : ℕ → HttpClient
asking n = record create_http_client {
  ref_count = n + 1;
  http_client = some (new_rabbit_http_client get_method [] none);
}

asking-IsWaiting : (n : ℕ) → IsWaiting n (asking n)
asking-IsWaiting n = record {
  live = refl;
  fresh = refl;
  request = new_rabbit_http_client get_method [] none;
  holds = refl;
  empty = refl;
  counted = refl;
}

abbrev answer : List TxEvent
answer = headers_complete 200 ∷ body_chunk (104 ∷ []) ∷ body_chunk (105 ∷ []) ∷ eom ∷ []

reply_of-answer :
    reply_of answer ≡ record { result = ok; headers = some 200; body = some (104 ∷ 105 ∷ []) }
reply_of-answer = refl

abbrev manager : FiberDataManager
manager = record (new_fiber_data_manager 4096) { main_evb = some 1; thread_id = 2; inited = true }

manager-IsManager : IsManager manager
unfolding find
manager-IsManager = record {
  thread_range = omega arith;
  counter_range = omega arith;
  distinct = tt;
  bounded = omega arith;
}

no_number : find (next_fiber_id 0) manager.datas ≡ none
unfolding find
no_number = refl

abbrev slot : FiberDataInfo
slot = record { fiber_id = 8589934593; state = idle; baton_posted = false }

abbrev pending : SyncFetch
pending = record {
  client = asking 1;
  caller = record {
    fibers = record (new_fiber_data_manager 4096) {
      thread_id = 2;
      inited = true;
      current_fiber_id = 1;
      datas = (1, 0) ∷ [];
      objects = slot ∷ [];
      fm = none;
    };
    fiber = 0;
    reply_data = new_reply_data;
    returned = false;
  };
  chain_back = 77;
}

abbrev pending_call : IsPending pending
pending_call = record {
  client = asking-IsWaiting 1;
  there = refl;
  waits_still = refl;
  data_of = slot;
  stored = refl;
}

timeout_first_example :
    (c : HttpClient) × (d : HttpClient) × (u : HttpClient) × (on_events pending.client
        (headers_complete 200 ∷ [])
      ≡ some c)
    × let r = wake (record pending { client = c }) false in
      (r.caller.reply_data ≡ new_reply_data)
      × (r.call_chain ≡ 77)
      × (find_fiber_data r.caller.fibers 8589934593 ≡ none)
      × (on_events r.client (eom ∷ []) ≡ some d)
      × (detach_transaction (some sync_callback) d r.caller ≡ some (u, r.caller))
      × IsReleased 0 u
timeout_first_example = timeout_first pending (headers_complete 200 ∷ []) (eom ∷ []) pending_call

sync_fetch_cases_example :
    Outcome no_split one_host manager
      (sync_fetch no_split one_host manager (new_stats "fiber" 6) 77 get_method (some page) "" "")
      77
      (some "93.184.216.34")
      (increase_at (new_stats "fiber" 6) f_http 1)
unfolding get_host_by_name
sync_fetch_cases_example =
    sync_fetch_cases no_split one_host manager (new_stats "fiber" 6) 77 get_method (some page) "" ""
      manager-IsManager refl (omega arith) no_number

default_headers_complete_example :
    let sent = default_headers string_eq.beq "example.org:80" (("X-Id", "7") ∷ []) in
    (has_header string_eq.beq "User-Agent" sent ≡ true)
    × (has_header string_eq.beq "Host" sent ≡ true)
    × (has_header string_eq.beq "Accept" sent ≡ true)
    × (rest : List (String × String)) × (sent ≡ ("X-Id", "7") ∷ rest)
default_headers_complete_example =
    default_headers_complete string_eq.beq beq_refl "example.org:80" (("X-Id", "7") ∷ [])
