-- ===== src/HttpClient/Reply.antt =====
-- What proxygen calls on a `RabbitHttpClient` and on the `HttpClient` behind it: one failed connect, or
-- a transaction, which ends in `detachTransaction`.
use service_framework.Prelude.{
  ℕ, refl, Bool, true, false, Option, none, some, List, [], append-nil, append_assoc, arith, ◌≡◌,
  ◌∷◌, ◌++◌, if◌then◌else◌,
}
use service_framework.HttpClient.{
  HttpClient, HttpClientReplyData, on_headers_complete, RabbitHttpClient, on_error,
  on_body_complete, http_error, ok,
}

-- The callbacks of a transaction before it is detached.
pub data TxEvent : Type 0 where
  headers_complete : ℕ → TxEvent
  body_chunk : List ℕ → TxEvent
  trailers eom upgrade egress_paused egress_resumed : TxEvent
  error : TxEvent

-- What `onBody` keeps of the chunks.
abbrev pub on_body : RabbitHttpClient → List ℕ → RabbitHttpClient
on_body h chain = record h { body = some (elim h.body [ none ↦ chain | some b ↦ b ++ chain ]) }

-- `onBody`
abbrev pub add_chunk : HttpClient → List ℕ → Option HttpClient
add_chunk c chain = elim c.http_client [
  | none ↦ none
  | some h ↦ some (record c { http_client = some (on_body h chain) })
]

-- The callbacks of `RabbitHttpClient`, which its `HttpClient` owns; those that the code leaves empty
-- change nothing.
unfoldable pub on_event : HttpClient → TxEvent → Option HttpClient
on_event c (headers_complete msg) = on_headers_complete c msg
on_event c (body_chunk chain) = if c.deleted then none else add_chunk c chain
on_event c trailers = if c.deleted then none else some c
on_event c eom = if c.deleted then none else some c
on_event c upgrade = if c.deleted then none else some c
on_event c egress_paused = if c.deleted then none else some c
on_event c egress_resumed = if c.deleted then none else some c
on_event c error = on_error c

unfoldable pub on_events : HttpClient → List TxEvent → Option HttpClient
on_events c [] = some c
on_events c (e ∷ events) = elim (on_event c e) [ none ↦ none | some d ↦ on_events d events ]

module _ {S : Type 0} (cb : Option (HttpClientReplyData → S → HttpClientReplyData × S)) where
  -- `detachTransaction`: the body goes to the client.
  unfoldable pub detach_transaction : HttpClient → S → Option (HttpClient × S)
  detach_transaction c s = elim c.http_client [
    | none ↦ none
    | some h ↦
        on_body_complete cb (record c { http_client = some (record h { body = none }) }) s h.body
  ]

-- The reply that a transaction makes.
abbrev pub failed : List TxEvent → Bool
failed [] = false
failed (error ∷ events) = true
failed (_ ∷ events) = failed events

-- The last headers, or `h` when there are none.
abbrev pub last_headers : Option ℕ → List TxEvent → Option ℕ
last_headers h [] = h
last_headers h (headers_complete msg ∷ events) = last_headers (some msg) events
last_headers h (_ ∷ events) = last_headers h events

abbrev pub has_chunk : List TxEvent → Bool
has_chunk [] = false
has_chunk (body_chunk chain ∷ events) = true
has_chunk (_ ∷ events) = has_chunk events

abbrev bytes : List TxEvent → List ℕ
bytes [] = []
bytes (body_chunk chain ∷ events) = chain ++ bytes events
bytes (_ ∷ events) = bytes events

abbrev pub body_of : List TxEvent → Option (List ℕ)
body_of events = if has_chunk events then some (bytes events) else none

-- A body is given only with an answer that did not fail.
abbrev pub reply_of : List TxEvent → HttpClientReplyData
reply_of events = record {
  result = if failed events then http_error else ok;
  headers = last_headers none events;
  body = if failed events then none else body_of events;
}

abbrev pub joined : Option (List ℕ) → List TxEvent → Option (List ℕ)
joined b events =
    if has_chunk events
    then some (elim b [ none ↦ bytes events | some given ↦ given ++ bytes events ])
    else b

-- A client after events.
abbrev pub later : HttpClient → RabbitHttpClient → List TxEvent → HttpClient
later c h events = record c {
  reply = record (c.reply) {
    result = if failed events then http_error else c.reply.result;
    headers = last_headers c.reply.headers events;
  };
  http_client = some (record h { body = joined h.body events });
}

no_chunk : (events : List TxEvent) → has_chunk events ≡ false → bytes events ≡ []
no_chunk [] h = refl
no_chunk (headers_complete msg ∷ events) h = no_chunk events h
no_chunk (body_chunk chain ∷ events) h = absurd (ground (arith, h))
no_chunk (trailers ∷ events) h = no_chunk events h
no_chunk (eom ∷ events) h = no_chunk events h
no_chunk (upgrade ∷ events) h = no_chunk events h
no_chunk (egress_paused ∷ events) h = no_chunk events h
no_chunk (egress_resumed ∷ events) h = no_chunk events h
no_chunk (error ∷ events) h = no_chunk events h

joined_chunk :
    (b : Option (List ℕ)) (chain : List ℕ) (events : List TxEvent)
    → joined (some (elim b [ none ↦ chain | some given ↦ given ++ chain ])) events
      ≡ joined b (body_chunk chain ∷ events)
joined_chunk none chain events = ground (arith, no_chunk events, append-nil chain)
joined_chunk (some b) chain events =
    ground (arith, no_chunk events, append-nil chain, append_assoc b chain (bytes events))

pub on_events_lem :
    (events : List TxEvent) (c : HttpClient) (h : RabbitHttpClient)
    → c.deleted ≡ false
    → c.http_client ≡ some h
    → on_events c events ≡ some (later c h events)
unfolding on_events on_event on_headers_complete on_error
on_events_lem [] c h live eq = ground (arith, eq)
on_events_lem (headers_complete msg ∷ events) c h live eq = ground (
  arith,
  live,
  on_events_lem events (record c { reply = record (c.reply) { headers = some msg } }) h live eq,
)
on_events_lem (body_chunk chain ∷ events) c h live eq = ground (
  arith,
  live,
  eq,
  joined_chunk h.body chain events,
  on_events_lem events (record c { http_client = some (on_body h chain) }) (on_body h chain) live
      refl,
)
on_events_lem (trailers ∷ events) c h live eq =
    ground (arith, live, on_events_lem events c h live eq)
on_events_lem (eom ∷ events) c h live eq = ground (arith, live, on_events_lem events c h live eq)
on_events_lem (upgrade ∷ events) c h live eq =
    ground (arith, live, on_events_lem events c h live eq)
on_events_lem (egress_paused ∷ events) c h live eq =
    ground (arith, live, on_events_lem events c h live eq)
on_events_lem (egress_resumed ∷ events) c h live eq =
    ground (arith, live, on_events_lem events c h live eq)
on_events_lem (error ∷ events) c h live eq = ground (
  arith,
  live,
  on_events_lem events (record c { reply = record (c.reply) { result = http_error } }) h live eq,
)
