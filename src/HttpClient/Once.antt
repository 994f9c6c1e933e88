-- ===== src/HttpClient/Once.antt =====
-- A client calls back once, and deletes itself with the last reference.
use service_framework.Prelude.{
  ℕ, String, refl, ap, inl, inr, false, Option, none, some, List, arith, Bool-cases, ◌+◌, ◌≡◌, ◌∙◌,
  ◌≢◌, ◌⊎◌, ◌==◌, string_eq, if◌then◌else◌, nat_eq, string_eq,
}
use service_framework.HttpClient.{
  HttpClient, HttpReplyCode, new_reply_data, HttpClientReplyData, RabbitHttpClient, HttpMethod,
  on_connect_error, connect_error, Url, on_body_complete, release_ref, call_back, invalid,
  is_no_reply, fetch, http_error, get_host_by_name, ok, add_ref, new_rabbit_http_client,
  create_http_client, parse_headers, post_data_of,
}
use service_framework.HttpClient.Calls.{fetch_with_ref}
use service_framework.HttpClient.Reply.{
  TxEvent, on_events, detach_transaction, reply_of, later, on_events_lem, joined, failed,
  last_headers,
}

-- A client that waits for its connection, with `n` references besides its own.
pub record IsWaiting (n : ℕ) (c : HttpClient) : Type 0 where
  pub live : c.deleted ≡ false
  pub fresh : c.reply ≡ new_reply_data
  pub request : RabbitHttpClient
  pub holds : c.http_client ≡ some request
  pub empty : request.body ≡ none
  pub counted : c.ref_count ≡ n + 1

abbrev pub failure : HttpReplyCode → HttpClientReplyData
failure code = record new_reply_data { result = code }

-- A new client with that reply, while its caller holds it.
abbrev refused : HttpReplyCode → HttpClient
refused code = record create_http_client { ref_count = 1; reply = failure code }

-- A client that let go of its own reference.
pub record IsReleased (n : ℕ) (c : HttpClient) : Type 0 where
  pub counted : c.ref_count ≡ n
  pub gone : c.deleted ≡ (n == 0)

-- The address of a URL: none for an invalid one, and for a host without address.
abbrev pub address_of : (String → Option String) → Option Url → Option String
address_of resolve none = none
address_of resolve (some u) =
    if string_eq.beq (get_host_by_name resolve u.host) ""
    then none
    else some (get_host_by_name resolve u.host)

reply_after :
    (r : HttpClientReplyData) (b : Option (List ℕ)) (events : List TxEvent)
    → r ≡ new_reply_data
    → b ≡ none
    → let told : HttpClientReplyData = record r {
      result = if failed events then http_error else r.result;
      headers = last_headers r.headers events;
    } in
      (if is_no_reply told.result
        then record told { result = ok; body = joined b events }
        else told)
      ≡ reply_of events
reply_after r b events h e =
    rw (h, e) (elim (Bool-cases (failed events)) [ inl f ↦ rw f refl | inr f ↦ rw f refl ])

module _ {S : Type 0} (cb : Option (HttpClientReplyData → S → HttpClientReplyData × S)) where
  -- One call of the callback, if there is one.
  abbrev pub called_with : HttpClientReplyData → S → S
  called_with reply s = elim cb [ none ↦ s | some f ↦ (f reply s).1 ]

  -- After a call of the callback the client is as before, but for the reply.
  called_back :
      (c : HttpClient) (s : S)
      → ((call_back cb c s).1 ≡ called_with c.reply s)
        × ((call_back cb c s).0.ref_count ≡ c.ref_count)
  called_back c s = ground arith

  -- The callback and the release behind it.
  abbrev finished : HttpClient → S → HttpClient × S
  finished c s = (release_ref (call_back cb c s).0, (call_back cb c s).1)

  finished_lem :
      {n : ℕ} (c : HttpClient) (s : S)
      → c.ref_count ≡ n + 1
      → ((finished c s).1 ≡ called_with c.reply s) × IsReleased n (finished c s).0
  unfolding release_ref
  finished_lem c s h = (
    (called_back c s).0,
    record {
      counted = ground (arith, h, called_back c s);
      gone = ground (arith, h, called_back c s);
    },
  )

  on_body_complete_lem :
      (c : HttpClient) (s : S) (body : Option (List ℕ)) (reply : HttpClientReplyData)
      → c.deleted ≡ false
      → (if is_no_reply c.reply.result
          then record (c.reply) { result = ok; body = body }
          else c.reply)
        ≡ reply
      → on_body_complete cb c s body ≡ some (finished (record c { reply = reply }) s)
  unfolding on_body_complete
  on_body_complete_lem c s body reply live eq = rw (live, eq) refl

  -- The same for a failed connection, with CONNECT_ERROR.
  pub connect_error_lem :
      {n : ℕ} {c : HttpClient} (s : S)
      → IsWaiting n c
      → (u : HttpClient) × (on_connect_error cb c s
          ≡ some (u, called_with (failure connect_error) s))
        × IsReleased n u
  unfolding on_connect_error
  connect_error_lem {c = c} s v =
      let told : HttpClient = record c { reply = failure connect_error } in
      let (eq, done) = finished_lem told s v.counted in
      ((finished told s).0, ground (arith, v.live, v.fresh, eq), done)

  pub transaction_lem :
      {n : ℕ} {c : HttpClient} (events : List TxEvent) (s : S)
      → IsWaiting n c
      → (d u : HttpClient) × (on_events c events ≡ some d)
        × (d.deleted ≡ false)
        × (detach_transaction cb d s ≡ some (u, called_with (reply_of events) s))
        × IsReleased n u
  unfolding detach_transaction on_body_complete
  transaction_lem {c = c} events s v =
      let d : HttpClient = later c v.request events in
      let h : RabbitHttpClient = record (v.request) { body = none } in
      let told : HttpClient = record d { http_client = some h; reply = reply_of events } in
      let (eq, done) = finished_lem told s v.counted in
      let ended =
        on_body_complete_lem (record d { http_client = some h }) s (joined v.request.body events)
          (reply_of events) v.live (reply_after c.reply v.request.body events v.fresh v.empty) in
      (
        d,
        (finished told s).0,
        on_events_lem events c v.request v.live v.holds,
        v.live,
        ended ∙ ap (λ t. some ((finished told s).0, t)) eq,
        done,
      )

  module _ (split : String → String → List String) (resolve : String → Option String) where
    -- `HttpClientGet` and `HttpClientPost` connect exactly when the URL is valid and its host has an
    -- address. If not, the callback was called once, with INVALID, and the client is deleted; if so, it
    -- was not called, and the client waits with its own reference as the only one.
    fetch_with_ref_cases :
        (s : S) (method : HttpMethod) (url : Option Url) (headers post_data : String)
        → let r = fetch_with_ref cb split resolve s method url headers post_data in
          (r.1 ≡ address_of resolve url)
          × (((r.1 ≡ none) × IsReleased 0 (r.0.0) × (r.0.1 ≡ called_with (failure invalid) s))
              ⊎ ((r.1 ≢ none) × IsWaiting 0 (r.0.0) × (r.0.1 ≡ s)))
    unfolding fetch_with_ref fetch add_ref release_ref
    fetch_with_ref_cases s method none headers post_data =
        let (eq, done) = finished_lem (refused invalid) s refl in (refl, inl (refl, done, eq))
    fetch_with_ref_cases s method (some u) headers post_data =
        let (eq, done) = finished_lem (refused invalid) s refl in
        elim (Bool-cases (string_eq.beq (get_host_by_name resolve u.host) "")) [
          | inl e ↦ rw e (refl, inl (refl, done, eq))
          | inr e ↦ rw e (
            refl,
            inr (
              λ h. absurd (ground (arith, h)),
              record {
                live = refl;
                fresh = refl;
                empty = refl;
                holds = refl;
                counted = refl;
                request =
                    new_rabbit_http_client method (parse_headers split headers)
                      (post_data_of method post_data);
              },
              refl,
            ),
          )
        ]
