-- ===== src/HttpClient/Calls.antt =====
-- `HttpClientGet` and `HttpClientPost`: they hold a reference while `Fetch` runs.
use service_framework.Prelude.{String, refl, Option, List, ◌≡◌}
use service_framework.HttpClient.{
  HttpClient, HttpClientReplyData, Url, HttpMethod, fetch, add_ref, create_http_client, release_ref,
  get_method, post_method,
}

module _ {S : Type 0} (cb : Option (HttpClientReplyData → S → HttpClientReplyData × S))
    (split : String → String → List String) (resolve : String → Option String) where
  -- The client, what the callback captured, and the address that is connected to, if one is.
  unfoldable pub fetch_with_ref :
      S → HttpMethod → Option Url → String → String → (HttpClient × S) × Option String
  fetch_with_ref s method url headers post_data =
      let r = fetch cb split resolve (add_ref create_http_client) s method url headers post_data in
      ((release_ref (r.0.0), r.0.1), r.1)

  unfoldable pub http_client_get : S → Option Url → (HttpClient × S) × Option String
  http_client_get s url = fetch_with_ref s get_method url "" ""

  -- The `Fetch` of three arguments takes its last as the data to post.
  unfoldable pub http_client_get_with_headers :
      S → Option Url → String → (HttpClient × S) × Option String
  http_client_get_with_headers s url headers = fetch_with_ref s get_method url "" headers

  unfoldable pub http_client_post : S → Option Url → String → (HttpClient × S) × Option String
  http_client_post s url post_data = fetch_with_ref s post_method url "" post_data

  unfoldable pub http_client_post_with_headers :
      S → Option Url → String → String → (HttpClient × S) × Option String
  http_client_post_with_headers s url headers post_data =
      fetch_with_ref s post_method url headers post_data

  -- The headers of the caller are not used: the request is that of a get without headers.
  pub http_client_get-headers_ignored :
      (s : S) (url : Option Url) (headers : String)
      → http_client_get_with_headers s url headers ≡ http_client_get s url
  unfolding http_client_get_with_headers http_client_get fetch_with_ref fetch
  http_client_get-headers_ignored s url headers = refl
