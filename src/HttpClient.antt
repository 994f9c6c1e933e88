-- ===== src/HttpClient.antt =====
-- `HttpClient` of baselib/net/server/http_client.{h,cc}, the client of one request, with
-- `RabbitHttpClient` of baselib/net/rabbit_http_client.{h,cc}, what proxygen calls. `none` is a use of a
-- client that deleted itself. An `IOBuf` is its bytes, a message of proxygen a number.
pub mod Reply
pub mod Calls
pub mod Once
pub mod Sync
pub mod SyncLife
pub mod SyncStart
pub mod Headers
mod Tests
use service_framework.Prelude.{
  ℕ, String, Bool, true, false, Option, none, some, List, [], leb, ◌+◌, ◌-◌, ◌∷◌, ◌==◌, string_eq,
  if◌then◌else◌, nat_eq, string_eq,
}

-- Of proxygen's methods, those that the code names.
pub data HttpMethod : Type 0 where
  get_method post_method : HttpMethod

pub data HttpReplyCode : Type 0 where
  ok invalid connect_error http_error no_reply : HttpReplyCode

pub record HttpClientReplyData : Type 0 where
  pub result : HttpReplyCode
  pub headers : Option ℕ
  pub body : Option (List ℕ)

abbrev pub new_reply_data : HttpClientReplyData
new_reply_data = record { result = no_reply; headers = none; body = none }

-- `Move`: what is left here, and the other.
unfoldable pub move_reply : HttpClientReplyData → HttpClientReplyData × HttpClientReplyData
move_reply r = (record r { headers = none; body = none }, r)

pub record RabbitHttpClient : Type 0 where
  pub http_method : HttpMethod
  pub request_headers : List (String × String)
  pub post_data : Option String
  pub body : Option (List ℕ)

abbrev pub new_rabbit_http_client :
    HttpMethod → List (String × String) → Option String → RabbitHttpClient
new_rabbit_http_client method headers post_data = record {
  http_method = method;
  request_headers = headers;
  post_data = post_data;
  body = none;
}

pub record HttpClient : Type 0 where
  pub ref_count : ℕ
  pub deleted : Bool
  pub reply : HttpClientReplyData
  pub http_client : Option RabbitHttpClient

-- `CreateHttpClient`
abbrev pub create_http_client : HttpClient
create_http_client = record {
  ref_count = 0;
  deleted = false;
  reply = new_reply_data;
  http_client = none;
}

unfoldable pub add_ref : HttpClient → HttpClient
add_ref c = record c { ref_count = c.ref_count + 1 }

unfoldable pub release_ref : HttpClient → HttpClient
release_ref c =
    if leb c.ref_count 0
    then c
    else record c { ref_count = c.ref_count - 1; deleted = c.ref_count - 1 == 0 }

abbrev pub is_no_reply : HttpReplyCode → Bool
is_no_reply no_reply = true
is_no_reply _ = false

-- The headers of `Fetch`, with the `split` of folly: the separator first.
module _ (split : String → String → List String) where
  abbrev pub header_of : List String → Option (String × String)
  header_of [] = none
  header_of (name ∷ values) =
      if string_eq.beq name ""
      then none
      else some (name, elim values [ [] ↦ "" | value ∷ _ ↦ value ])

  unfoldable pub headers_of : List String → List (String × String)
  headers_of [] = []
  headers_of (pair ∷ pairs) = elim (header_of (split ":" pair)) [
    | none ↦ headers_of pairs
    | some header ↦ header ∷ headers_of pairs
  ]

  unfoldable pub parse_headers : String → List (String × String)
  parse_headers headers = if string_eq.beq headers "" then [] else headers_of (split ";" headers)

-- `S_GetHostByName`, with the address that `gethostbyname_r` and `inet_ntop` give.
unfoldable pub get_host_by_name : (String → Option String) → String → String
get_host_by_name resolve host = elim (resolve host) [ none ↦ "" | some ip ↦ ip ]

-- `post_data2`
abbrev pub post_data_of : HttpMethod → String → Option String
post_data_of get_method data_given = none
post_data_of post_method data_given = if string_eq.beq data_given "" then none else some data_given

-- What the code reads of proxygen's `URL`; an invalid one is `none` below.
pub record Url : Type 0 where
  pub host : String
  pub host_and_port : String
  pub relative : String
  pub secure : Bool

unfoldable pub on_headers_complete : HttpClient → ℕ → Option HttpClient
on_headers_complete c msg =
    if c.deleted then none else some (record c { reply = record (c.reply) { headers = some msg } })

unfoldable pub on_error : HttpClient → Option HttpClient
on_error c =
    if c.deleted then none else some (record c { reply = record (c.reply) { result = http_error } })

-- The callback may change the reply, and whatever it captured, here a state `S`.
module _ {S : Type 0} (cb : Option (HttpClientReplyData → S → HttpClientReplyData × S)) where
  abbrev pub call_back : HttpClient → S → HttpClient × S
  call_back c s = elim cb [
    | none ↦ (c, s)
    | some f ↦ (record c { reply = (f c.reply s).0 }, (f c.reply s).1)
  ]

  -- `OnBodyComplete`, and `OnConnectError` below: the callback, then the client's own reference.
  unfoldable pub on_body_complete : HttpClient → S → Option (List ℕ) → Option (HttpClient × S)
  on_body_complete c s body =
      let reply : HttpClientReplyData =
        if is_no_reply c.reply.result
        then record (c.reply) { result = ok; body = body }
        else c.reply in
      let r = call_back (record c { reply = reply }) s in
      if c.deleted then none else some (release_ref r.0, r.1)

  unfoldable pub on_connect_error : HttpClient → S → Option (HttpClient × S)
  on_connect_error c s =
      let r = call_back (record c { reply = record (c.reply) { result = connect_error } }) s in
      if c.deleted then none else some (release_ref r.0, r.1)

  module _ (split : String → String → List String) (resolve : String → Option String) where
    -- `Fetch`: the client, and the address that its connector connects to, if it does.
    unfoldable pub fetch :
        HttpClient
        → S
        → HttpMethod
        → Option Url
        → String
        → String
        → (HttpClient × S) × Option String
    fetch c s method url headers post_data = elim url [
      | none ↦ (call_back (record c { reply = record (c.reply) { result = invalid } }) s, none)
      | some u ↦
          if string_eq.beq (get_host_by_name resolve u.host) ""
          then (call_back (record c { reply = record (c.reply) { result = invalid } }) s, none)
          else (
            (
              record (add_ref c) {
                http_client = some (
                    new_rabbit_http_client method (parse_headers split headers)
                      (post_data_of method post_data));
              },
              s,
            ),
            some (get_host_by_name resolve u.host),
          )
    ]
