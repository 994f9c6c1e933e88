-- ===== src/HttpClient/Headers.antt =====
-- `connectSuccess` of `RabbitHttpClient`: the request that it sends.
use service_framework.Prelude.{
  ℕ, String, refl, ap, Bool, true, false, Option, none, some, List, [], append-nil, append_assoc,
  arith, ◌≡◌, ◌∙◌, ◌||◌, ◌∷◌, ◌++◌, if◌then◌else◌,
}
use service_framework.HttpClient.Once.{IsWaiting}
use service_framework.HttpClient.{
  HttpClient, get_method, post_method, RabbitHttpClient, HttpMethod, Url,
}

-- What is sent on the transaction: the request line, the headers and the bodies that `sendBody` gets.
pub record Request : Type 0 where
  pub http_method : HttpMethod
  pub url : String
  pub secure : Bool
  pub headers : List (String × String)
  pub bodies : List (Option String)

-- `same` compares the names of headers, as proxygen's `HTTPHeaders` does.
module _ (same : String → String → Bool) where
  abbrev pub has_header : String → List (String × String) → Bool
  has_header name [] = false
  has_header name ((n, value) ∷ headers) = same n name || has_header name headers

  -- `if (!...getNumberOfValues(name)) ...add(name, value)`
  unfoldable pub add_default : String → String → List (String × String) → List (String × String)
  add_default name value headers =
      if has_header name headers then headers else headers ++ (name, value) ∷ []

  unfoldable pub default_headers : String → List (String × String) → List (String × String)
  default_headers host_and_port headers =
      add_default "Accept" "*/*"
        (add_default "Host" host_and_port (add_default "User-Agent" "proxygen_curl" headers))

  unfoldable pub connect_success : RabbitHttpClient → Url → RabbitHttpClient × Request
  connect_success h url =
      let headers = default_headers url.host_and_port h.request_headers in
      (
        record h {
          request_headers = headers;
          post_data = elim h.http_method [ get_method ↦ h.post_data | post_method ↦ none ];
        },
        record {
          http_method = h.http_method;
          url = url.relative;
          secure = url.secure;
          headers = headers;
          bodies = elim h.http_method [ get_method ↦ [] | post_method ↦ h.post_data ∷ [] ];
        },
      )

module _ (same : String → String → Bool) (same_refl : (name : String) → same name name ≡ true) where
  has_header-append :
      (name : String) (hs rest : List (String × String))
      → has_header same name (hs ++ rest) ≡ (has_header same name hs || has_header same name rest)
  has_header-append name [] rest = refl
  has_header-append name ((n, value) ∷ hs) rest = ground (arith, has_header-append name hs rest)

  add_default-has_header :
      (name value : String) (hs : List (String × String))
      → has_header same name (add_default same name value hs) ≡ true
  unfolding add_default
  add_default-has_header name value hs =
      ground (arith, has_header-append name hs ((name, value) ∷ []), same_refl name)

  has_header-add_default :
      (n name value : String) (hs : List (String × String))
      → has_header same n hs ≡ true
      → has_header same n (add_default same name value hs) ≡ true
  unfolding add_default
  has_header-add_default n name value hs h =
      ground (arith, h, has_header-append n hs ((name, value) ∷ []))

  added : String → String → List (String × String) → List (String × String)
  added name value hs = if has_header same name hs then [] else (name, value) ∷ []

  add_default_lem :
      (name value : String) (hs : List (String × String))
      → add_default same name value hs ≡ hs ++ added name value hs
  unfolding add_default added
  add_default_lem name value hs = ground (arith, append-nil hs)

  -- For a comparison of names that takes every name as its own: the request has a User-Agent, a Host
  -- and an Accept header, and begins with the headers of the caller, in their order.
  pub default_headers_complete :
      (host_and_port : String) (hs : List (String × String))
      → let sent = default_headers same host_and_port hs in
        (has_header same "User-Agent" sent ≡ true)
        × (has_header same "Host" sent ≡ true)
        × (has_header same "Accept" sent ≡ true)
        × (rest : List (String × String)) × (sent ≡ hs ++ rest)
  unfolding default_headers
  default_headers_complete host_and_port hs =
      let one = add_default same "User-Agent" "proxygen_curl" hs in
      let two = add_default same "Host" host_and_port one in
      let a = added "User-Agent" "proxygen_curl" hs in
      let b = added "Host" host_and_port one in
      let c = added "Accept" "*/*" two in
      (
        has_header-add_default "User-Agent" "Accept" "*/*" two (
            has_header-add_default "User-Agent" "Host" host_and_port one
              (add_default-has_header "User-Agent" "proxygen_curl" hs)),
        has_header-add_default "Host" "Accept" "*/*" two
            (add_default-has_header "Host" host_and_port one),
        add_default-has_header "Accept" "*/*" two,
        a ++ (b ++ c),
        add_default_lem "Accept" "*/*" two
            ∙ ap (λ l. l ++ c)
                (add_default_lem "Host" host_and_port one
                  ∙ ap (λ l. l ++ b) (add_default_lem "User-Agent" "proxygen_curl" hs))
            ∙ append_assoc (hs ++ a) b c
            ∙ append_assoc hs a (b ++ c),
      )

-- `connectSuccess` on the client that waits for it.
unfoldable pub on_connected :
    (String → String → Bool) → HttpClient → Url → Option (HttpClient × Request)
on_connected same c url = if c.deleted then none else elim c.http_client [
  | none ↦ none
  | some h ↦ some (
    record c { http_client = some (connect_success same h url).0 },
    (connect_success same h url).1,
  )
]

-- A waiting client sends its request, and waits on for the transaction.
on_connected-IsWaiting :
    (same : String → String → Bool) {n : ℕ} {c : HttpClient} (url : Url) (v : IsWaiting n c)
    → (d : HttpClient) × (on_connected same c url
        ≡ some (d, (connect_success same v.request url).1))
      × IsWaiting n d
unfolding on_connected connect_success
on_connected-IsWaiting same {c = c} url v = (
  record c { http_client = some (connect_success same v.request url).0 },
  ground (arith, v.live, v.holds),
  record {
    live = v.live;
    fresh = v.fresh;
    request = (connect_success same v.request url).0;
    holds = refl;
    empty = v.empty;
    counted = v.counted;
  },
)
