-- ===== src/Client/Enqueue.antt =====
-- `submit_request` of src/http_client.cc on the lists of waiting requests.
use latypus.Io.Ring.{size, reset, resize}
use latypus.HttpMessage.{same_string}
use latypus.Common.{
  ℕ, ◌≡◌, refl, ap, ◌∙◌, Bool, true, false, not, ◌&&◌, Option, none, some, List, [], ◌∷◌, ◌++◌,
  ◌==◌, ltb, if_elim, option_elim, if◌then◌else◌,
}
use latypus.Client.State.{
  ClientConnection, ClientEngine, ClientDelegate, UrlRequest, Sizes, connect, connect_host,
}
use latypus.Client.Table.{
  update, crash, init, add_to_host, find_in_hosts, get_existing_connection_for_url,
  get_new_connection_for_url,
}
use latypus.Client.Messages.{Next, http_text, https_text, forward_connection, run_connect_host}
use latypus.Client.Submit.{enqueue, connect_new, submit_request}
use latypus.Client.Requests.{
  requests, Same, update-Same, close_socket-requests, run_connect_host-Same,
  forward_connection-Same,
}

-- The request is the last of one list, or of none.
abbrev pub Enqueued : ClientEngine → UrlRequest → ClientEngine × Bool → Type 0
Enqueued s u (s1, true) =
    (i : ℕ) × ((j : ℕ)
      → requests j s1 ≡ (if i == j then requests j s ++ (u ∷ []) else requests j s))
Enqueued s u (s1, false) = (j : ℕ) → requests j s1 ≡ requests j s

init-requests : (z : Sizes) (c : ClientConnection) → (init z c).0.url_requests ≡ c.url_requests
unfolding init
init-requests z c =
    if_elim (λ (r : ClientConnection × Bool). r.0.url_requests ≡ c.url_requests)
      (size c.buffer == 0)
      (λ _.
        option_elim (λ (r : ClientConnection × Bool). r.0.url_requests ≡ c.url_requests)
          (resize (reset c.buffer) z.io_buffer_size) _ _ (close_socket-requests c)
          λ _. close_socket-requests c)
      λ _. close_socket-requests c

if_requests :
    (b : Bool) (c1 c : ClientConnection)
    → (if b then c1 else c).url_requests ≡ (if b then c1.url_requests else c.url_requests)
if_requests true c1 c = refl
if_requests false c1 c = refl

pub enqueue-requests :
    (s : ClientEngine) (i : ℕ) (u : UrlRequest) (j : ℕ)
    → requests j (enqueue s i u) ≡ (if i == j then requests j s ++ (u ∷ []) else requests j s)
enqueue-requests s i u j =
    let c = s.connections_all j in
    if_requests (i == j) (record c { url_requests = c.url_requests ++ (u ∷ []) }) c

get_new-requests :
    (z : Sizes) (s : ClientEngine) (host : List ℕ) (j : ℕ)
    → Same j s (get_new_connection_for_url z s host).0
unfolding get_new_connection_for_url
get_new-requests z s host j = by_list s.connections_free
  where
    by_list :
        (l : List ℕ)
        → Same j s
            (elim l as (λ _. ClientEngine × Option ℕ) [
              | [] ↦ (s, none)
              | i ∷ rest ↦ (
                record (update s i (λ c. record ((init z c).0) { remote_host = host })) {
                  connections_free = rest;
                  connections_host_map = add_to_host host i s.connections_host_map;
                  fault = if (init z (s.connections_all i)).1 then s.fault else true;
                },
                some i,
              )
            ]).0
    by_list [] = refl
    by_list (i ∷ rest) =
        update-Same j s i (λ c. record ((init z c).0) { remote_host = host }) (init-requests z)

connect_new-Enqueued :
    (thread : Option ClientDelegate) (a : Next) (z : Sizes) (s : ClientEngine) (u : UrlRequest)
    → Enqueued s u (connect_new thread a z s u)
unfolding connect_new
connect_new-Enqueued thread a z s u = by_conn (get_new_connection_for_url z s u.host).1
  where
    s1 : ClientEngine
    s1 = (get_new_connection_for_url z s u.host).0

    at_end :
        (i j : ℕ)
        → requests j (enqueue s1 i u) ≡ (if i == j then requests j s ++ (u ∷ []) else requests j s)
    at_end i j =
        enqueue-requests s1 i u j
        ∙ ap (λ (l : List UrlRequest). if i == j then l ++ (u ∷ []) else l)
            (get_new-requests z s u.host j)

    by_thread :
        (i : ℕ) (t : Option ClientDelegate)
        → Enqueued s u (elim t [
          | none ↦ (crash (enqueue s1 i u), true)
          | some d ↦ (
            forward_connection d connect connect_host (run_connect_host d a) (enqueue s1 i u) i,
            true,
          )
        ])
    by_thread i none = (i, λ j. at_end i j)
    by_thread i (some d) = (
      i,
      λ j.
          forward_connection-Same d a j i (enqueue s1 i u) connect connect_host
            (run_connect_host d a) (run_connect_host-Same d a j i (enqueue s1 i u)) (enqueue s1 i u)
            refl
          ∙ at_end i j,
    )

    by_conn :
        (o : Option ℕ)
        → Enqueued s u (elim o [
          | none ↦ (s1, false)
          | some i ↦ elim thread [
            | none ↦ (crash (enqueue s1 i u), true)
            | some d ↦ (
              forward_connection d connect connect_host (run_connect_host d a) (enqueue s1 i u) i,
              true,
            )
          ]
        ])
    by_conn none = λ j. get_new-requests z s u.host j
    by_conn (some i) = by_thread i thread

-- `submit_request`, in every state of the client: when it reports success the request is the last of
-- the list of one connection, and no other list has changed; when it reports failure no list has.
pub submit_request-Enqueued :
    (thread : Option ClientDelegate) (a : Next) (z : Sizes) (s : ClientEngine) (u : UrlRequest)
    (limit : ℕ)
    → Enqueued s u (submit_request thread a z s u limit)
unfolding submit_request get_existing_connection_for_url
submit_request-Enqueued thread a z s u limit =
    if_elim (Enqueued s u)
      (not (same_string u.scheme http_text) && not (same_string u.scheme https_text)) (λ _ j. refl)
      λ _.
        if_elim (Enqueued s u) (not (ltb 0 limit)) (λ _. connect_new-Enqueued thread a z s u)
          λ _. by_found (find_in_hosts s limit u.host s.connections_host_map).0
  where
    s1 : ClientEngine
    s1 = record s { connections_host_map = (find_in_hosts s limit u.host s.connections_host_map).1 }

    by_requests :
        (i : ℕ) (l : List UrlRequest)
        → Enqueued s u
            (elim l [ [] ↦ connect_new thread a z s1 u | _ ∷ _ ↦ (enqueue s1 i u, true) ])
    by_requests i [] = connect_new-Enqueued thread a z s1 u
    by_requests i (v ∷ vs) = (i, enqueue-requests s1 i u)

    by_found :
        (o : Option ℕ)
        → Enqueued s u (elim o [
          | none ↦ connect_new thread a z s1 u
          | some i ↦ elim (s1.connections_all i).url_requests [
            | [] ↦ connect_new thread a z s1 u
            | _ ∷ _ ↦ (enqueue s1 i u, true)
          ]
        ])
    by_found none = connect_new-Enqueued thread a z s1 u
    by_found (some i) = by_requests i (s1.connections_all i).url_requests
