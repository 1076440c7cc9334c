-- ===== src/Client/Lost.antt =====
-- Where src/http_client.cc loses a request, or frees a connection twice.
use latypus.Io.Ring.{size}
use latypus.HttpMessage.{same_string}
use latypus.HttpMessage.Names.{same_string_refl}
use latypus.HttpMessage.Output.{result}
use latypus.HttpRequest.{Request, to_buffer}
use latypus.Common.{
  ℕ, ◌≡◌, refl, ap, sym, subst, ◌∙◌, Bool, true, Option, none, some, List, [], ◌∷◌, ◌++◌, ltb, ◌<◌,
  if_true, arith, length, ==_refl,
}
use latypus.Client.State.{ClientEngine, ClientDelegate, UrlRequest, Sizes}
use latypus.Client.Table.{
  free_connection, find_open, rotate, find_in_hosts, get_existing_connection_for_url,
}
use latypus.Client.Messages.{
  Next, http_text, make_request, copy_request, populate_request_headers, send_request,
  run_next_request,
}
use latypus.Client.Submit.{enqueue, connect_new, submit_request}
use latypus.Client.Enqueue.{enqueue-requests}
use latypus.Client.Requests.{requests, free_connection-Same}

-- The request is put behind the others; no message is sent, the threads poll what they did, and the
-- connection stays in the free list.
abbrev pub Abandoned : ClientEngine → ℕ → UrlRequest → ClientEngine × Bool → Type 0
Abandoned s i u (s1, done) =
    (done ≡ true)
    × (requests i s1 ≡ requests i s ++ (u ∷ []))
    × (s1.polls ≡ s.polls)
    × (s1.messages ≡ s.messages)
    × (s1.connections_free ≡ i ∷ s.connections_free)

find_in_hosts-first :
    (s : ClientEngine) (limit : ℕ) (host : List ℕ) (i : ℕ) (queue : List ℕ)
    (hosts : List (List ℕ × List ℕ))
    → length (requests i s) < limit
    → find_in_hosts s limit host ((host, i ∷ queue) ∷ hosts)
      ≡ (some i, (host, rotate (i ∷ queue)) ∷ hosts)
unfolding find_in_hosts find_open
find_in_hosts-first s limit host i queue hosts l =
    let k : ltb (length (requests i s)) limit ≡ true = ground arith in
    rw (same_string_refl host, k) refl

module _ (thread : Option ClientDelegate) (a : Next) (z : Sizes) (s : ClientEngine) (i : ℕ)
    (u v : UrlRequest) (vs : List UrlRequest) (queue : List ℕ) (hosts : List (List ℕ × List ℕ))
    (limit : ℕ) where
  abbrev hosts1 : List (List ℕ × List ℕ)
  hosts1 = (u.host, rotate (i ∷ queue)) ∷ hosts

  abbrev s1 : ClientEngine
  s1 = record (free_connection s i) { connections_host_map = hosts1 }

  existing :
      s.connections_host_map ≡ (u.host, i ∷ queue) ∷ hosts
      → length (requests i s) < limit
      → get_existing_connection_for_url (free_connection s i) u.host limit ≡ (s1, some i)
  unfolding get_existing_connection_for_url free_connection
  existing h l =
      let same : requests i (free_connection s i) ≡ requests i s = free_connection-Same i s i in
      let k : length (requests i (free_connection s i)) < limit =
        subst (λ (x : List UrlRequest). length x < limit) (sym same) l in
      ap
        (λ (r : Option ℕ × List (List ℕ × List ℕ)).
          (record (free_connection s i) { connections_host_map = r.1 }, r.0))
        (ap (find_in_hosts (free_connection s i) limit u.host) h
          ∙ find_in_hosts-first (free_connection s i) limit u.host i queue hosts k)

  abbrev after_search : ClientEngine × Option ℕ → ClientEngine × Bool
  after_search r = elim r.1 [
    | none ↦ connect_new thread a z r.0 u
    | some j ↦ elim (r.0.connections_all j).url_requests [
      | [] ↦ connect_new thread a z r.0 u
      | _ ∷ _ ↦ (enqueue r.0 j u, true)
    ]
  ]

  searches :
      u.scheme ≡ http_text
      → length (requests i s) < limit
      → submit_request thread a z (free_connection s i) u limit
        ≡ after_search (get_existing_connection_for_url (free_connection s i) u.host limit)
  unfolding submit_request
  searches p l =
      let k : ltb 0 limit ≡ true = ground arith in
      let b : same_string u.scheme http_text ≡ true =
        ap (λ (x : List ℕ). same_string x http_text) p ∙ same_string_refl http_text in
      rw (b, k) refl

  enqueues : requests i s1 ≡ v ∷ vs → after_search (s1, some i) ≡ (enqueue s1 i u, true)
  enqueues q =
      ap
        (λ (l : List UrlRequest). elim l as (λ _. ClientEngine × Bool) [
          | [] ↦ connect_new thread a z s1 u
          | _ ∷ _ ↦ (enqueue s1 i u, true)
        ])
        q

  -- `submit_request` to the host of a connection that has just been aborted or closed, while requests
  -- wait for it: where the connection is the first of the queue of the host, the host the first of
  -- the map, the scheme http, and fewer requests wait for the connection than the limit, the new
  -- request is accepted and put behind the others of the freed connection. No message is sent for it,
  -- what the threads poll is what it was, and the connection is still free.
  pub submit_request-Abandoned :
      s.connections_host_map ≡ (u.host, i ∷ queue) ∷ hosts
      → u.scheme ≡ http_text
      → requests i s ≡ v ∷ vs
      → length (requests i s) < limit
      → Abandoned s i u (submit_request thread a z (free_connection s i) u limit)
  unfolding free_connection
  submit_request-Abandoned h p q l =
      let same : requests i (free_connection s i) ≡ requests i s = free_connection-Same i s i in
      subst (Abandoned s i u)
        (sym (searches p l ∙ ap after_search (existing h l) ∙ enqueues (same ∙ q)))
        (
          refl,
          enqueue-requests s1 i u i
              ∙ if_true (requests i s1 ++ (u ∷ [])) (requests i s1) (==_refl i)
              ∙ ap (λ (x : List UrlRequest). x ++ (u ∷ [])) same,
          refl,
          refl,
          refl,
        )

-- The next request of a connection, where its headers do not fit the buffer: the connection is put
-- into the free list twice.
pub run_next_request-twice :
    (d : ClientDelegate) (a : Next) (s : ClientEngine) (i : ℕ) (u : UrlRequest)
    (us : List UrlRequest) (r : Request)
    → requests i s ≡ u ∷ us
    → make_request d.client_string u (s.connections_all i).request ≡ some r
    → (a.populate_request r).1 ≡ true
    → result (to_buffer (a.populate_request r).0 (size (s.connections_all i).buffer)) ≡ none
    → (run_next_request d a s i).connections_free ≡ i ∷ (i ∷ s.connections_free)
unfolding run_next_request populate_request_headers copy_request send_request free_connection
run_next_request-twice d a s i u us r q m p t = ground arith
