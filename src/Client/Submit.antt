-- ===== src/Client/Submit.antt =====
-- `submit_request` of src/http_client.cc: a request is put on a connection to its host, an open one or
-- a new one.
use latypus.HttpMessage.{same_string}
use latypus.Common.{
  ℕ, Bool, true, false, not, ◌&&◌, Option, none, some, [], ◌∷◌, ◌++◌, ltb, if◌then◌else◌,
}
use latypus.Client.State.{ClientEngine, ClientDelegate, UrlRequest, Sizes, connect, connect_host}
use latypus.Client.Table.{
  update, crash, get_existing_connection_for_url, get_new_connection_for_url,
}
use latypus.Client.Messages.{Next, http_text, https_text, forward_connection, run_connect_host}

abbrev pub enqueue : ClientEngine → ℕ → UrlRequest → ClientEngine
enqueue s i u = update s i (λ c. record c { url_requests = c.url_requests ++ (u ∷ []) })

-- `thread`: the thread that the engine chooses to connect, or null.
unfoldable pub connect_new :
    Option ClientDelegate → Next → Sizes → ClientEngine → UrlRequest → ClientEngine × Bool
connect_new thread a z s u =
    let (s1, conn) = get_new_connection_for_url z s u.host in
    elim conn [
      | none ↦ (s1, false)
      | some i ↦ elim thread [
        | none ↦ (crash (enqueue s1 i u), true)
        | some d ↦ (
          forward_connection d connect connect_host (run_connect_host d a) (enqueue s1 i u) i,
          true,
        )
      ]
    ]

unfoldable pub submit_request :
    Option ClientDelegate → Next → Sizes → ClientEngine → UrlRequest → ℕ → ClientEngine × Bool
unfolding connect_new
submit_request thread a z s u max_requests_per_connection =
    if not (same_string u.scheme http_text) && not (same_string u.scheme https_text)
    then (s, false)
    else if not (ltb 0 max_requests_per_connection)
    then connect_new thread a z s u
    else (let (s1, found) = get_existing_connection_for_url s u.host max_requests_per_connection in
        elim found [
          | none ↦ connect_new thread a z s1 u
          | some i ↦ elim (s1.connections_all i).url_requests [
            | [] ↦ connect_new thread a z s1 u
            | _ ∷ _ ↦ (enqueue s1 i u, true)
          ]
        ])
