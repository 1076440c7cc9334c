-- ===== src/Client/Requests.antt =====
-- The handlers of src/http_client.cc on the requests that wait for a connection: one leaves a list only
-- at its front, when it has been served.
use latypus.Io.Ring.{reset, size}
use latypus.Io.{store}
use latypus.HttpMessage.{same_string}
use latypus.HttpMessage.Output.{Output, result}
use latypus.HttpRequest.{to_buffer}
use latypus.Common.{
  ℕ, ◌≡◌, refl, ◌∙◌, false, not, Option, none, some, List, [], ◌∷◌, ◌==◌, ltb, if_elim, option_elim,
  if◌then◌else◌,
}
use latypus.Server.State.{poll_out, plain, tls}
use latypus.Client.State.{
  ClientConnection, ClientEngine, ClientDelegate, tls_handshake, client_request, UrlRequest,
  ClientAction, ClientMask, ClientMessage, connect_host, process_tls_handshake,
  process_next_request, keepalive_wait_connection, worker,
}
use latypus.Client.Table.{
  update, crash, add_events, remove_events, close_socket, release, free_connection,
}
use latypus.Client.Messages.{
  Next, make_request, copy_request, populate_request_headers, send_request, run_next_request,
  run_tls_handshake, choose_thread, forward_connection, process_connection, process_connection_tls,
  connect_scheme, run_connect_host, run_action, handle_message, http_text, https_text,
}

abbrev pub requests : ℕ → ClientEngine → List UrlRequest
requests j s = (s.connections_all j).url_requests

abbrev pub Same : ℕ → ClientEngine → ClientEngine → Type 0
Same j s s1 = requests j s1 ≡ requests j s

pub update-Same :
    (j : ℕ) (s : ClientEngine) (i : ℕ) (f : ClientConnection → ClientConnection)
    → ((c : ClientConnection) → (f c).url_requests ≡ c.url_requests)
    → Same j s (update s i f)
update-Same j s i f h =
    if_elim (λ (c : ClientConnection). c.url_requests ≡ requests j s) (i == j)
      (λ _. h (s.connections_all j)) λ _. refl

pub close_socket-requests : (c : ClientConnection) → (close_socket c).url_requests ≡ c.url_requests
unfolding close_socket
close_socket-requests c =
    option_elim (λ (c1 : ClientConnection). c1.url_requests ≡ c.url_requests) c.sock c _ refl
      λ _. refl

pub free_connection-Same : (j : ℕ) (s : ClientEngine) (i : ℕ) → Same j s (free_connection s i)
unfolding free_connection release
free_connection-Same j s i = update-Same j s i (λ c. release (close_socket c)) close_socket-requests

module _ (d : ClientDelegate) (a : Next) (j i : ℕ) (s0 : ClientEngine) where
  -- A change that leaves the list of waiting requests alone, after others.
  kept :
      (s : ClientEngine) (f : ClientConnection → ClientConnection)
      → ((c : ClientConnection) → (f c).url_requests ≡ c.url_requests)
      → Same j s0 s
      → Same j s0 (update s i f)
  kept s f h e = update-Same j s i f h ∙ e

  freed : (s : ClientEngine) → Same j s0 s → Same j s0 (free_connection s i)
  freed s e = free_connection-Same j s i ∙ e

  copy_request-Same : (s : ClientEngine) → Same j s0 s → Same j s0 (copy_request d s i).0
  unfolding copy_request
  copy_request-Same s e =
      let c = s.connections_all i in
      option_elim (λ (r : ClientEngine × Option ℕ). Same j s0 r.0)
        (result (to_buffer c.request (size c.buffer))) _ _
        (freed (remove_events d (update s i (λ c. record c { buffer = reset c.buffer })) i)
          (kept s (λ c. record c { buffer = reset c.buffer }) (λ _. refl) e))
        λ (out : Output).
          option_elim (λ (r : ClientEngine × Option ℕ). Same j s0 r.0)
            (store c.buffer.buffer 0 out.bytes) _ _ e
            λ bytes.
              kept s
                (λ c. record c {
                  buffer = record (reset c.buffer) { buffer = bytes; back = out.total };
                })
                (λ _. refl) e

  send_request-Same : (r : ClientEngine × Option ℕ) → Same j s0 r.0 → Same j s0 (send_request d i r)
  unfolding send_request
  send_request-Same (s, none) e = freed s e
  send_request-Same (s, some n) e =
      if_elim (Same j s0) (ltb 0 n)
        (λ _. kept s (λ c. record c { state = client_request }) (λ _. refl) e) λ _. freed s e

  populate-Same : (s : ClientEngine) → Same j s0 s → Same j s0 (populate_request_headers d a s i).0
  unfolding populate_request_headers
  populate-Same s e =
      let r = a.populate_request (s.connections_all i).request in
      let s1 =
        update s i (λ c. record c { request = r.0; request_has_body = a.request_has_body }) in
      let e1 : Same j s0 s1 =
        kept s (λ c. record c { request = r.0; request_has_body = a.request_has_body }) (λ _. refl)
          e in
      if_elim (λ (s2 : ClientEngine). Same j s0 (copy_request d s2 i).0) r.1
        (λ _. copy_request-Same s1 e1) λ _. copy_request-Same (free_connection s1 i) (freed s1 e1)

  pub run_next_request-Same :
      (s : ClientEngine) → Same j s0 s → Same j s0 (run_next_request d a s i)
  unfolding run_next_request
  run_next_request-Same s e = by_list (s.connections_all i).url_requests
    where
      by_list :
          (l : List UrlRequest)
          → Same j s0 (elim l [
            | [] ↦ crash s
            | u ∷ _ ↦ elim (make_request d.client_string u (s.connections_all i).request) [
              | none ↦ crash s
              | some r ↦ send_request d i (
                  populate_request_headers d a
                    (update s i (λ c. record c { handler = some u.handler; request = r }))
                    i)
            ]
          ])
      by_list [] = e
      by_list (u ∷ us) =
          option_elim (Same j s0) (make_request d.client_string u (s.connections_all i).request) _ _
            e
            λ r.
              let s1 = update s i (λ c. record c { handler = some u.handler; request = r }) in
              send_request-Same (populate_request_headers d a s1 i) (
                populate-Same s1
                  (kept s (λ c. record c { handler = some u.handler; request = r }) (λ _. refl) e))

  run_tls_handshake-Same : (s : ClientEngine) → Same j s0 s → Same j s0 (run_tls_handshake d s i)
  unfolding run_tls_handshake
  run_tls_handshake-Same s e =
      kept (add_events d s i poll_out) (λ c. record c { state = tls_handshake }) (λ _. refl) e

  pub forward_connection-Same :
      (mask : ClientMask) (action : ClientAction) (callback : ClientEngine → ℕ → ClientEngine)
      → ((s : ClientEngine) → Same j s0 s → Same j s0 (callback s i))
      → (s : ClientEngine) → Same j s0 s
      → Same j s0 (forward_connection d mask action callback s i)
  unfolding forward_connection
  forward_connection-Same mask action callback h s e =
      option_elim (Same j s0) (choose_thread d mask) _ _ (freed s e) λ to.
        if_elim (Same j s0) (d.thread == to)
          (λ _.
            h (update s i (λ c. record c { last_activity = d.current_time }))
              (kept s (λ c. record c { last_activity = d.current_time }) (λ _. refl) e))
          λ _.
            if_elim (Same j s0)
              (d.sends (record { to_thread = to; action = action; connection_num = i })) (λ _. e)
              λ _. e

  pub process_connection-Same :
      (s : ClientEngine) → Same j s0 s → Same j s0 (process_connection d a s i)
  unfolding process_connection
  process_connection-Same =
      forward_connection-Same worker process_next_request (run_next_request d a)
        run_next_request-Same

  process_connection_tls-Same :
      (s : ClientEngine) → Same j s0 s → Same j s0 (process_connection_tls d s i)
  unfolding process_connection_tls
  process_connection_tls-Same =
      forward_connection-Same worker process_tls_handshake (run_tls_handshake d)
        run_tls_handshake-Same

  connect_scheme-Same :
      (s : ClientEngine) (scheme : List ℕ) → Same j s0 s → Same j s0 (connect_scheme d a s i scheme)
  unfolding connect_scheme
  connect_scheme-Same s scheme e =
      if_elim (Same j s0) (same_string scheme https_text)
        (λ _.
          if_elim (Same j s0) (not a.ssl_ctx) (λ _. e)
            λ _. option_elim (Same j s0) a.connects _ _ (freed s e) λ fd.
              process_connection_tls-Same
                (update s i (λ c. record c { sock = some (fd, tls); nodelay = false }))
                (kept s (λ c. record c { sock = some (fd, tls); nodelay = false }) (λ _. refl) e))
        λ _.
          if_elim (Same j s0) (same_string scheme http_text)
            (λ _. option_elim (Same j s0) a.connects _ _ (freed s e) λ fd.
              process_connection-Same
                (update s i (λ c. record c { sock = some (fd, plain); nodelay = false }))
                (kept s (λ c. record c { sock = some (fd, plain); nodelay = false }) (λ _. refl) e))
            λ _. e

  pub run_connect_host-Same :
      (s : ClientEngine) → Same j s0 s → Same j s0 (run_connect_host d a s i)
  unfolding run_connect_host
  run_connect_host-Same s e = by_list (s.connections_all i).url_requests
    where
      by_list :
          (l : List UrlRequest)
          → Same j s0 (elim l [
            | [] ↦ crash s
            | u ∷ _ ↦ if a.lookup then connect_scheme d a s i u.scheme else free_connection s i
          ])
      by_list [] = e
      by_list (u ∷ us) =
          if_elim (Same j s0) a.lookup (λ _. connect_scheme-Same s u.scheme e) λ _. freed s e

  run_action-Same :
      (action : ClientAction) (s : ClientEngine)
      → Same j s0 s
      → Same j s0 (run_action d a action s i)
  unfolding run_action
  run_action-Same connect_host s e = run_connect_host-Same s e
  run_action-Same process_tls_handshake s e = run_tls_handshake-Same s e
  run_action-Same process_next_request s e = run_next_request-Same s e
  run_action-Same keepalive_wait_connection s e = e

-- No message takes a request from the list of a connection, or adds one: not of the connection that
-- it is for, and not of another.
pub client_message_requests :
    (d : ClientDelegate) (a : Next) (s : ClientEngine) (m : ClientMessage) (j : ℕ)
    → requests j (handle_message d a s m) ≡ requests j s
unfolding handle_message
client_message_requests d a s m j = run_action-Same d a j m.connection_num s m.action _ (
    update-Same j s m.connection_num (λ c. record c { last_activity = d.current_time }) (λ _. refl))
