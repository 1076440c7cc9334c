-- ===== src/Client/Handlers.antt =====
-- src/http_client.cc: the state handlers, the events that reach them, and timeouts. Logging is left
-- out.
use latypus.Io.{IoResult, has_error, Reader, Writer}
use latypus.Io.Ring.{Ring, reset, set, buffer_read, buffer_write, bytes_readable, bytes_writable}
use latypus.Common.{
  ℕ, ◌+◌, ◌-◌, Bool, not, ◌||◌, none, some, List, [], ◌∷◌, ◌==◌, ltb, if◌then◌else◌,
}
use latypus.Server.State.{poll_in, poll_out}
use latypus.Server.Handlers.{Handshake, finished, want_write, want_read, other, Revents}
use latypus.Client.State.{
  ClientEngine, ClientDelegate, ClientState, free, tls_handshake, client_request, client_body,
  server_response, server_body, waiting, UrlRequest,
}
use latypus.Client.Table.{update, crash, set_state, add_events, remove_events, free_connection}
use latypus.Client.Messages.{Next, run_next_request, process_connection}

-- What the socket, the response parser and the handler answer while an event is handled. `finished`
-- and `parse_error` are the parser's after what was read; `has_body` and `closes` are what
-- `handle_response` sets; `body_start` is the part of the body in the buffer.
pub record ClientAnswers : Type 0 where
  pub next : Next
  pub handshake : Handshake
  pub reader : Reader
  pub writer : Writer
  pub parsed : Bool
  pub parse_error : Bool
  pub has_body : Bool
  pub closes : Bool
  pub body_start : List ℕ
  pub write_request_body : IoResult
  pub read_response_body : Ring → Ring × IoResult
  pub end_request : Bool

abbrev drop : ClientDelegate → ClientEngine → ℕ → ClientEngine
drop d s i = free_connection (remove_events d s i) i

abbrev set_buffer : ClientEngine → ℕ → Ring → ClientEngine
set_buffer s i r = update s i (λ c. record c { buffer = r })

unfoldable pub handle_state_tls_handshake :
    ClientDelegate → ClientAnswers → ClientEngine → ℕ → ClientEngine
handle_state_tls_handshake d a s i = elim a.handshake [
  | finished ↦ run_next_request d a.next (remove_events d s i) i
  | want_write ↦ add_events d s i poll_out
  | want_read ↦ add_events d s i poll_in
  | other ↦ drop d s i
]

-- The response is waited for.
unfoldable pub await_response : ClientDelegate → ClientEngine → ℕ → ClientEngine
await_response d s i = set_state (add_events d (remove_events d s i) i poll_in) i server_response

unfoldable pub handle_state_client_body :
    ClientDelegate → ClientAnswers → ClientEngine → ℕ → ClientEngine
unfolding await_response
handle_state_client_body d a s i = elim (s.connections_all i).handler [
  | none ↦ crash s
  | some _ ↦
      if has_error a.write_request_body
      then drop d s i
      else if a.write_request_body.size == 0
      then await_response d s i
      else s
]

-- `handle_connection` in the state that has just been set.
abbrev touch : ClientDelegate → ClientEngine → ℕ → ClientEngine
touch d s i = update s i (λ c. record c { last_activity = d.current_time })

unfoldable pub handle_state_client_request :
    ClientDelegate → ClientAnswers → ClientEngine → ℕ → ClientEngine
unfolding handle_state_client_body await_response
handle_state_client_request d a s i = elim (buffer_write (s.connections_all i).buffer a.writer) [
  | none ↦ crash s
  | some (r, result) ↦
      let s1 = set_buffer s i r in
      if has_error result
      then drop d s1 i
      else if ltb 0 (bytes_readable r)
      then s1
      else if (s.connections_all i).request_has_body
      then handle_state_client_body d a
          (touch d (set_state (set_buffer s i (reset r)) i client_body) i) i
      else await_response d (set_buffer s i (reset r)) i
]

abbrev pub pop : List UrlRequest → List UrlRequest
pop [] = []
pop (u ∷ us) = us

-- The request at the head has been served: the next one is started, or the connection closed. The
-- list is popped without a test; an empty one is undefined behaviour.
unfoldable pub next_or_close : ClientDelegate → ClientAnswers → ClientEngine → ℕ → ClientEngine
next_or_close d a s i =
    let c = s.connections_all i in
    let s1 = update s i λ c. record c {
      handler = none;
      requests_processed = c.requests_processed + 1;
      url_requests = pop c.url_requests;
    } in
    elim c.url_requests [
      | [] ↦ crash s
      | _ ∷ [] ↦ free_connection s1 i
      | _ ∷ (_ ∷ _) ↦ process_connection d a.next s1 i
    ]

-- The response is over.
unfoldable pub end_response : ClientDelegate → ClientAnswers → ClientEngine → ℕ → ClientEngine
unfolding next_or_close
end_response d a s i = elim (s.connections_all i).handler [
  | none ↦ crash s
  | some _ ↦
      if not a.end_request
      then drop d s i
      else if (s.connections_all i).connection_close
      then drop d s i
      else next_or_close d a (remove_events d s i) i
]

unfoldable pub handle_state_server_body :
    ClientDelegate → ClientAnswers → ClientEngine → ℕ → ClientEngine
unfolding end_response
handle_state_server_body d a s i = elim (s.connections_all i).handler [
  | none ↦ crash s
  | some _ ↦
      let (r, result) = a.read_response_body (s.connections_all i).buffer in
      let s1 = set_buffer s i r in
      if has_error result
      then drop d s1 i
      else if result.size == 0
      then end_response d a s1 i
      else s1
]

-- The response's headers are complete.
unfoldable pub handle_headers : ClientDelegate → ClientAnswers → ClientEngine → ℕ → ClientEngine
unfolding end_response handle_state_server_body
handle_headers d a s i = elim (s.connections_all i).handler [
  | none ↦ crash s
  | some _ ↦
      let s1 =
        update s i
          (λ c. record c { response_has_body = a.has_body; connection_close = a.closes }) in
      if a.has_body
      then (elim (set (s.connections_all i).buffer a.body_start) [
        | none ↦ crash s1
        | some r ↦
            handle_state_server_body d a (touch d (set_state (set_buffer s1 i r) i server_body) i) i
      ])
      else end_response d a s1 i
]

unfoldable pub handle_state_server_response :
    ClientDelegate → ClientAnswers → ClientEngine → ℕ → ClientEngine
unfolding handle_headers
handle_state_server_response d a s i =
    if bytes_writable (s.connections_all i).buffer == 0
    then drop d s i
    else elim (buffer_read (s.connections_all i).buffer a.reader) [
      | none ↦ crash s
      | some (r, result) ↦
          let s1 = set_buffer s i (record r { front = r.front + result.size }) in
          if has_error result
          then drop d (set_buffer s i r) i
          else if a.parsed
          then handle_headers d a s1 i
          else if a.parse_error
          then drop d s1 i
          else s1
    ]

-- The callback of a state; a free connection has none.
unfoldable pub run_state :
    ClientDelegate → ClientAnswers → ClientEngine → ℕ → ClientState → ClientEngine
run_state d a s i free = drop d s i
run_state d a s i tls_handshake = handle_state_tls_handshake d a s i
run_state d a s i client_request = handle_state_client_request d a s i
run_state d a s i client_body = handle_state_client_body d a s i
run_state d a s i server_response = handle_state_server_response d a s i
run_state d a s i server_body = handle_state_server_body d a s i
run_state d a s i waiting = free_connection s i

unfoldable pub handle_connection :
    ClientDelegate → ClientAnswers → ClientEngine → ℕ → Revents → ClientEngine
unfolding run_state
handle_connection d a s i e =
    if e.hup || e.err || e.invalid
    then drop d s i
    else (let s1 = touch d s i in run_state d a s1 i (s1.connections_all i).state)

abbrev idle_for : ℕ → ClientDelegate → ClientEngine → ℕ → Bool
idle_for limit d s i = ltb limit (d.current_time - (s.connections_all i).last_activity)

abbrev drop_idle : ℕ → ClientDelegate → ClientEngine → ℕ → ClientEngine
drop_idle limit d s i = if idle_for limit d s i then drop d s i else s

unfoldable pub timeout_state : ClientDelegate → ClientEngine → ℕ → ClientState → ClientEngine
timeout_state d s i free = s
timeout_state d s i tls_handshake = s
timeout_state d s i client_request = drop_idle d.connection_timeout d s i
timeout_state d s i client_body = drop_idle d.connection_timeout d s i
timeout_state d s i server_response = drop_idle d.connection_timeout d s i
timeout_state d s i server_body = drop_idle d.connection_timeout d s i
timeout_state d s i waiting = drop_idle d.keepalive_timeout d s i

unfoldable pub timeout_connection : ClientDelegate → ClientEngine → ℕ → ClientEngine
unfolding timeout_state
timeout_connection d s i = timeout_state d s i (s.connections_all i).state
