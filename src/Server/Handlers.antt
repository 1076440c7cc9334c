-- ===== src/Server/Handlers.antt =====
-- src/http_server.cc: the state handlers, the events that reach them, and timeouts.
-- Logging and the access log are left out.
use latypus.Io.{IoResult, has_error, Reader, Writer}
use latypus.Io.Ring.{Ring, reset, buffer_read, buffer_write, bytes_readable, bytes_writable}
use latypus.HttpCommon.{clean, bad_request, fault, out_of_fuel, sanitize_path}
use latypus.Common.{
  ℕ, ◌+◌, ◌-◌, Bool, true, false, not, ◌&&◌, ◌||◌, Option, none, some, List, ◌==◌, ltb,
  if◌then◌else◌,
}
use latypus.Server.State.{
  ConnState, free, client_request, client_body, server_response, server_body, waiting,
  lingering_close, tls_handshake, Engine, Delegate, Stats, poll_in, poll_out,
}
use latypus.Server.Table.{update, abort_connection, close_connection}
use latypus.Server.Forward.{
  Work, crash, add_events, remove_events, Populated, crashed, overflowed, written,
  populate_response_headers, start_response, dispatch_connection, work_connection,
  keepalive_connection, linger_connection,
}

-- The return of `do_handshake`.
pub data Handshake : Type 0 where
  finished want_write want_read other : Handshake

-- What the socket, the request parser and the handler answer while an event is handled. `path` is
-- the request's path once the request is complete, null or a string; `use_nodelay` is the build's.
pub record Answers : Type 0 where
  pub work : Work
  pub handshake : Handshake
  pub reader : Reader
  pub writer : Writer
  pub parsed : Bool
  pub parse_error : Bool
  pub path : Option (List ℕ)
  pub read_request_body : IoResult
  pub write_response_body : Ring → Ring × IoResult
  pub end_request : Bool
  pub use_nodelay : Bool

abbrev drop_aborted : Delegate → Engine → ℕ → Engine
drop_aborted d s i = abort_connection (remove_events d s i) i

abbrev drop_closed : Delegate → Engine → ℕ → Engine
drop_closed d s i = close_connection (remove_events d s i) i

abbrev set_buffer : Engine → ℕ → Ring → Engine
set_buffer s i r = update s i (λ c. record c { buffer = r })

unfoldable pub handle_state_tls_handshake : Delegate → Answers → Engine → ℕ → Engine
handle_state_tls_handshake d a s i = elim a.handshake [
  | finished ↦ dispatch_connection d a.work s i
  | want_write ↦ add_events d s i poll_out
  | want_read ↦ add_events d s i poll_in
  | other ↦ drop_closed d s i
]

-- Whether `process_request_headers` succeeds: the path is there, and is sanitized in place. A read
-- outside of the string is a fault.
unfoldable pub accepts_path : Option (List ℕ) → Bool × Bool
accepts_path none = (false, false)
accepts_path (some path) = elim (sanitize_path path) [
  | clean _ ↦ (true, false)
  | bad_request ↦ (false, false)
  | fault ↦ (false, true)
  | out_of_fuel ↦ (false, true)
]

-- `process_request_headers`: a new handler is looked up.
unfoldable pub process_request_headers : Option (List ℕ) → Engine → ℕ → Engine × Bool
process_request_headers path s i =
    let (accepted, faulted) = accepts_path path in
    if faulted
    then (crash s, false)
    else if accepted
    then (update s i (λ c. record c { handler = true }), true)
    else (s, false)

-- A complete request goes to a worker.
unfoldable pub finish_headers : Delegate → Answers → Engine → ℕ → Engine
finish_headers d a s i =
    let (s1, accepted) = process_request_headers a.path s i in
    if accepted then work_connection d a.work (remove_events d s1 i) i else drop_aborted d s1 i

-- What was read is handed to the parser and counted as consumed.
unfoldable pub parse_headers : Delegate → Answers → Engine → ℕ → IoResult → Engine
parse_headers d a s i result =
    let r = (s.connections_all i).buffer in
    let s1 = set_buffer s i (record r { front = r.front + result.size }) in
    if a.parsed then finish_headers d a s1 i else if a.parse_error then drop_aborted d s1 i else s1

unfoldable pub handle_state_client_request : Delegate → Answers → Engine → ℕ → Engine
handle_state_client_request d a s i =
    if bytes_writable (s.connections_all i).buffer == 0
    then drop_aborted d s i
    else elim (buffer_read (s.connections_all i).buffer a.reader) [
      | none ↦ crash s
      | some (r, result) ↦
          let s1 = set_buffer s i r in
          if has_error result
          then drop_aborted d s1 i
          else if result.size == 0 && r.back == 0
          then drop_closed d s1 i
          else parse_headers d a s1 i result
    ]

-- What `handle_state_client_body` does then: it does not look at the result.
unfoldable pub resume : Delegate → ℕ → Engine × Populated → Engine
resume d i (s, crashed) = s
resume d i (s, overflowed) = start_response d s i
resume d i (s, written _) = start_response d s i

unfoldable pub handle_state_client_body : Delegate → Answers → Engine → ℕ → Engine
handle_state_client_body d a s i =
    if not (s.connections_all i).handler
    then crash s
    else if has_error a.read_request_body
    then drop_aborted d s i
    else if a.read_request_body.size == 0
    then resume d i (populate_response_headers d a.work s i)
    else s

-- The request is over: the connection is closed or kept.
unfoldable pub end_response : Delegate → Answers → Engine → ℕ → Engine
end_response d a s i =
    if not (s.connections_all i).handler
    then crash s
    else if not a.end_request
    then drop_aborted d s i
    else if (s.connections_all i).connection_close
    then drop_closed d (record s { stats = counted }) i
    else keepalive_connection a.use_nodelay d a.work
        (remove_events d (record s { stats = counted }) i) i
  where
    counted : Stats
    counted = record s.stats { requests_processed = s.stats.requests_processed + 1 }

unfoldable pub handle_state_server_response : Delegate → Answers → Engine → ℕ → Engine
handle_state_server_response d a s i =
    if ltb 0 (bytes_readable (s.connections_all i).buffer)
    then (elim (buffer_write (s.connections_all i).buffer a.writer) [
      | none ↦ crash s
      | some (r, result) ↦
          let s1 = set_buffer s i r in
          if has_error result
          then drop_aborted d s1 i
          else if result.size == 0
          then end_response d a s1 i
          else s1
    ])
    else end_response d a s i

-- After the handler has put more of the body into the buffer this goes on as above.
unfoldable pub handle_state_server_body : Delegate → Answers → Engine → ℕ → Engine
handle_state_server_body d a s i =
    if (s.connections_all i).response_has_body
    then (if not (s.connections_all i).handler
        then crash s
        else (let (r, result) = a.write_response_body (s.connections_all i).buffer in
            let s1 = set_buffer s i r in
            if has_error result
            then drop_aborted d s1 i
            else handle_state_server_response d a s1 i))
    else handle_state_server_response d a s i

unfoldable pub handle_state_waiting : Delegate → Answers → Engine → ℕ → Engine
handle_state_waiting d a s i = dispatch_connection d a.work (remove_events d s i) i

unfoldable pub handle_state_lingering_close : Delegate → Answers → Engine → ℕ → Engine
handle_state_lingering_close d a s i =
    elim (buffer_read (reset (s.connections_all i).buffer) a.reader) [
      | none ↦ crash s
      | some (r, result) ↦
          let s1 = set_buffer s i r in if has_error result then drop_closed d s1 i else s1
    ]

-- The callback of a state; a free connection has none.
unfoldable pub run_state : Delegate → Answers → Engine → ℕ → ConnState → Engine
run_state d a s i free = drop_aborted d s i
run_state d a s i tls_handshake = handle_state_tls_handshake d a s i
run_state d a s i client_request = handle_state_client_request d a s i
run_state d a s i client_body = handle_state_client_body d a s i
run_state d a s i server_response = handle_state_server_response d a s i
run_state d a s i server_body = handle_state_server_body d a s i
run_state d a s i waiting = handle_state_waiting d a s i
run_state d a s i lingering_close = handle_state_lingering_close d a s i

-- `revents`
pub record Revents : Type 0 where
  pub hup : Bool
  pub err : Bool
  pub invalid : Bool

unfoldable pub handle_connection : Delegate → Answers → Engine → ℕ → Revents → Engine
handle_connection d a s i e =
    if e.hup || e.err || e.invalid
    then drop_closed d s i
    else (let s1 = update s i (λ c. record c { last_activity = d.current_time }) in
        run_state d a s1 i (s1.connections_all i).state)

unfoldable pub timeout_after : ℕ → Delegate → Engine → ℕ → Bool
timeout_after limit d s i = ltb limit (d.current_time - (s.connections_all i).last_activity)

abbrev idle_linger : Delegate → Work → Engine → ℕ → Engine
idle_linger d w s i =
    if timeout_after d.connection_timeout d s i
    then linger_connection d w (remove_events d s i) i
    else s

unfoldable pub timeout_state : Delegate → Work → Engine → ℕ → ConnState → Engine
timeout_state d w s i free = s
timeout_state d w s i tls_handshake = s
timeout_state d w s i client_request = idle_linger d w s i
timeout_state d w s i client_body = idle_linger d w s i
timeout_state d w s i server_response = idle_linger d w s i
timeout_state d w s i server_body = idle_linger d w s i
timeout_state d w s i lingering_close =
    if timeout_after d.connection_timeout d s i then drop_aborted d s i else s
timeout_state d w s i waiting =
    if timeout_after d.keepalive_timeout d s i then drop_closed d s i else s

unfoldable pub timeout_connection : Delegate → Work → Engine → ℕ → Engine
timeout_connection d w s i = timeout_state d w s i (s.connections_all i).state
