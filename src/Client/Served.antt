-- ===== src/Client/Served.antt =====
-- The state handlers of src/http_client.cc on the requests that wait for a connection: one leaves a list
-- only at its front, when it has been served.
use latypus.Io.Ring.{buffer_write, buffer_read, bytes_readable, bytes_writable, set, reset}
use latypus.Io.{has_error}
use latypus.Common.{
  ℕ, ◌+◌, ◌≡◌, subst, refl, ap, sym, ◌∙◌, ◌⊎◌, inl, inr, true, not, ◌||◌, none, List, [], ◌∷◌, ◌==◌,
  ltb, if_elim, option_elim, arith,
}
use latypus.Server.State.{poll_in, poll_out}
use latypus.Server.Handlers.{Handshake, finished, want_write, want_read, other, Revents}
use latypus.Client.State.{
  ClientConnection, ClientEngine, ClientDelegate, ClientState, free, tls_handshake, client_request,
  client_body, server_response, server_body, waiting, UrlRequest,
}
use latypus.Client.Table.{update, crash, add_events, remove_events, free_connection}
use latypus.Client.Messages.{run_next_request, process_connection}
use latypus.Client.Handlers.{
  ClientAnswers, handle_state_tls_handshake, await_response, handle_state_client_body,
  handle_state_client_request, pop, next_or_close, end_response, handle_state_server_body,
  handle_headers, handle_state_server_response, run_state, handle_connection,
}
use latypus.Client.Requests.{
  requests, Same, update-Same, free_connection-Same, process_connection-Same, run_next_request-Same,
}

-- The list stays, or its first request leaves it: on the connection of the event, after the handler
-- has ended the request well.
abbrev pub Served : ClientAnswers → ℕ → ℕ → ClientEngine → ClientEngine → Type 0
Served a i j s s1 =
    Same j s s1
    ⊎ ((i ≡ j) × (a.end_request ≡ true) × ((u : UrlRequest) × (requests j s ≡ u ∷ requests j s1)))

module _ (d : ClientDelegate) (a : ClientAnswers) (j i : ℕ) (s0 : ClientEngine) where
  abbrev Holds : ClientEngine → Type 0
  Holds = Served a i j s0

  kept :
      (s : ClientEngine) (f : ClientConnection → ClientConnection)
      → ((c : ClientConnection) → (f c).url_requests ≡ c.url_requests)
      → Same j s0 s
      → Same j s0 (update s i f)
  kept s f h e = update-Same j s i f h ∙ e

  dropped : (s : ClientEngine) → Same j s0 s → Holds (free_connection s i)
  dropped s e = inl (free_connection-Same j s i ∙ e)

  after : (s s1 : ClientEngine) → Holds s → Same j s s1 → Holds s1
  after s s1 (inl e) h = inl (h ∙ e)
  after s s1 (inr (k, b, (u, e))) h = inr (k, b, (u, e ∙ ap (◌∷◌ u) (sym h)))

  abbrev popped : ClientEngine → ClientEngine
  popped s = update s i λ c. record c {
    handler = none;
    requests_processed = c.requests_processed + 1;
    url_requests = pop c.url_requests;
  }

  popped-Holds :
      (s : ClientEngine) (u : UrlRequest) (us : List UrlRequest)
      → a.end_request ≡ true
      → requests i s ≡ u ∷ us
      → Same j s0 s
      → Holds (popped s)
  popped-Holds s u us b h e =
      if_elim
        (λ (c : ClientConnection).
          (c.url_requests ≡ requests j s0)
          ⊎ ((i ≡ j)
              × (a.end_request ≡ true)
              × ((u1 : UrlRequest) × (requests j s0 ≡ u1 ∷ c.url_requests))))
        (i == j)
        (λ g.
          let k : i ≡ j = ground arith in
          let l : requests j s ≡ u ∷ us = subst (λ x. requests x s ≡ u ∷ us) k h in
          inr (k, b, (u, sym e ∙ l ∙ ap (λ x. u ∷ pop x) (sym l))))
        λ _. inl e

  next_or_close-Holds :
      (s : ClientEngine) → a.end_request ≡ true → Same j s0 s → Holds (next_or_close d a s i)
  unfolding next_or_close
  next_or_close-Holds s b e = by_list (s.connections_all i).url_requests refl
    where
      by_list :
          (l : List UrlRequest)
          → requests i s ≡ l
          → Holds (elim l [
            | [] ↦ crash s
            | _ ∷ [] ↦ free_connection (popped s) i
            | _ ∷ (_ ∷ _) ↦ process_connection d a.next (popped s) i
          ])
      by_list [] h = inl e
      by_list (u ∷ []) h =
          after (popped s) (free_connection (popped s) i) (popped-Holds s u [] b h e)
            (free_connection-Same j (popped s) i)
      by_list (u ∷ (v ∷ us)) h =
          after (popped s) (process_connection d a.next (popped s) i)
            (popped-Holds s u (v ∷ us) b h e)
            (process_connection-Same d a.next j i (popped s) (popped s) refl)

  drop-Holds : (s : ClientEngine) → Same j s0 s → Holds (free_connection (remove_events d s i) i)
  drop-Holds s e = dropped (remove_events d s i) e

  end_response-Holds : (s : ClientEngine) → Same j s0 s → Holds (end_response d a s i)
  unfolding end_response
  end_response-Holds s e = option_elim Holds (s.connections_all i).handler _ _ (inl e) λ _.
      if_elim Holds (not a.end_request) (λ _. drop-Holds s e)
        λ h.
          if_elim Holds (s.connections_all i).connection_close (λ _. drop-Holds s e)
            λ _. next_or_close-Holds (remove_events d s i) (ground arith) e

  server_body-Holds : (s : ClientEngine) → Same j s0 s → Holds (handle_state_server_body d a s i)
  unfolding handle_state_server_body
  server_body-Holds s e =
      let r = a.read_response_body (s.connections_all i).buffer in
      let s1 = update s i (λ c. record c { buffer = r.0 }) in
      let e1 : Same j s0 s1 = kept s (λ c. record c { buffer = r.0 }) (λ _. refl) e in
      option_elim Holds (s.connections_all i).handler _ _ (inl e) λ _.
        if_elim Holds (has_error r.1) (λ _. drop-Holds s1 e1)
          λ _. if_elim Holds (r.1.size == 0) (λ _. end_response-Holds s1 e1) λ _. inl e1

  headers-Holds : (s : ClientEngine) → Same j s0 s → Holds (handle_headers d a s i)
  unfolding handle_headers
  headers-Holds s e =
      let s1 =
        update s i
          (λ c. record c { response_has_body = a.has_body; connection_close = a.closes }) in
      let e1 : Same j s0 s1 =
        kept s (λ c. record c { response_has_body = a.has_body; connection_close = a.closes })
          (λ _. refl) e in
      option_elim Holds (s.connections_all i).handler _ _ (inl e) λ _.
        if_elim Holds a.has_body
          (λ _. option_elim Holds (set (s.connections_all i).buffer a.body_start) _ _ (inl e1) λ r.
            let s2 = update s1 i (λ c. record c { buffer = r }) in
            let s3 = update s2 i (λ c. record c { state = server_body }) in
            server_body-Holds (update s3 i (λ c. record c { last_activity = d.current_time })) (
              kept s3 (λ c. record c { last_activity = d.current_time }) (λ _. refl)
                (kept s2 (λ c. record c { state = server_body }) (λ _. refl)
                  (kept s1 (λ c. record c { buffer = r }) (λ _. refl) e1))))
          λ _. end_response-Holds s1 e1

  server_response-Holds :
      (s : ClientEngine) → Same j s0 s → Holds (handle_state_server_response d a s i)
  unfolding handle_state_server_response
  server_response-Holds s e =
      if_elim Holds (bytes_writable (s.connections_all i).buffer == 0) (λ _. drop-Holds s e)
        λ _.
          option_elim Holds (buffer_read (s.connections_all i).buffer a.reader) _ _ (inl e)
            λ (r, result).
              let s1 =
                update s i
                  (λ c. record c { buffer = record r { front = r.front + result.size } }) in
              let e1 : Same j s0 s1 =
                kept s (λ c. record c { buffer = record r { front = r.front + result.size } })
                  (λ _. refl) e in
              if_elim Holds (has_error result)
                (λ _.
                  drop-Holds (update s i (λ c. record c { buffer = r }))
                    (kept s (λ c. record c { buffer = r }) (λ _. refl) e))
                λ _.
                  if_elim Holds a.parsed (λ _. headers-Holds s1 e1)
                    λ _. if_elim Holds a.parse_error (λ _. drop-Holds s1 e1) λ _. inl e1

  await-Holds : (s : ClientEngine) → Same j s0 s → Holds (await_response d s i)
  unfolding await_response
  await-Holds s e = inl (
      kept (add_events d (remove_events d s i) i poll_in)
        (λ c. record c { state = server_response }) (λ _. refl) e)

  client_body-Holds : (s : ClientEngine) → Same j s0 s → Holds (handle_state_client_body d a s i)
  unfolding handle_state_client_body
  client_body-Holds s e = option_elim Holds (s.connections_all i).handler _ _ (inl e) λ _.
      if_elim Holds (has_error a.write_request_body) (λ _. drop-Holds s e)
        λ _. if_elim Holds (a.write_request_body.size == 0) (λ _. await-Holds s e) λ _. inl e

  client_request-Holds :
      (s : ClientEngine) → Same j s0 s → Holds (handle_state_client_request d a s i)
  unfolding handle_state_client_request
  client_request-Holds s e =
      option_elim Holds (buffer_write (s.connections_all i).buffer a.writer) _ _ (inl e)
        λ (r, result).
          let s1 = update s i (λ c. record c { buffer = r }) in
          let e1 : Same j s0 s1 = kept s (λ c. record c { buffer = r }) (λ _. refl) e in
          let s2 = update s i (λ c. record c { buffer = reset r }) in
          let e2 : Same j s0 s2 = kept s (λ c. record c { buffer = reset r }) (λ _. refl) e in
          let s3 = update s2 i (λ c. record c { state = client_body }) in
          if_elim Holds (has_error result) (λ _. drop-Holds s1 e1)
            λ _.
              if_elim Holds (ltb 0 (bytes_readable r)) (λ _. inl e1)
                λ _.
                  if_elim Holds (s.connections_all i).request_has_body
                    (λ _.
                      client_body-Holds
                        (update s3 i (λ c. record c { last_activity = d.current_time }))
                        (kept s3 (λ c. record c { last_activity = d.current_time }) (λ _. refl)
                          (kept s2 (λ c. record c { state = client_body }) (λ _. refl) e2)))
                    λ _. await-Holds s2 e2

  tls_handshake-Holds :
      (s : ClientEngine) → Same j s0 s → Holds (handle_state_tls_handshake d a s i)
  unfolding handle_state_tls_handshake
  tls_handshake-Holds s e = by_return a.handshake
    where
      by_return :
          (h : Handshake)
          → Holds (elim h [
            | finished ↦ run_next_request d a.next (remove_events d s i) i
            | want_write ↦ add_events d s i poll_out
            | want_read ↦ add_events d s i poll_in
            | other ↦ free_connection (remove_events d s i) i
          ])
      by_return finished = inl (run_next_request-Same d a.next j i s0 (remove_events d s i) e)
      by_return want_write = inl e
      by_return want_read = inl e
      by_return other = drop-Holds s e

  run_state-Holds :
      (state : ClientState) (s : ClientEngine) → Same j s0 s → Holds (run_state d a s i state)
  unfolding run_state
  run_state-Holds free s e = drop-Holds s e
  run_state-Holds tls_handshake s e = tls_handshake-Holds s e
  run_state-Holds client_request s e = client_request-Holds s e
  run_state-Holds client_body s e = client_body-Holds s e
  run_state-Holds server_response s e = server_response-Holds s e
  run_state-Holds server_body s e = server_body-Holds s e
  run_state-Holds waiting s e = dropped s e

-- Every event of a client's connection, in every state and whatever the socket, the parser and the
-- handler answer: the list of waiting requests of every connection stays as it is, except that the
-- first request may leave the list of the connection of the event, and only after its handler has
-- ended it well.
pub client_event_requests :
    (d : ClientDelegate) (a : ClientAnswers) (s : ClientEngine) (i : ℕ) (e : Revents) (j : ℕ)
    → Served a i j s (handle_connection d a s i e)
unfolding handle_connection
client_event_requests d a s i e j =
    if_elim (Served a i j s) (e.hup || e.err || e.invalid) (λ _. drop-Holds d a j i s s refl)
      λ _.
        let s1 = update s i (λ c. record c { last_activity = d.current_time }) in
        run_state-Holds d a j i s (s1.connections_all i).state s1
          (update-Same j s i (λ c. record c { last_activity = d.current_time }) (λ _. refl))
