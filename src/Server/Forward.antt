-- ===== src/Server/Forward.antt =====
-- src/http_server.cc: polling, the message callbacks, and handing a connection to a thread; and
-- `choose_thread`, `send_message`, `add_events` and `remove_events` of src/protocol_thread.cc.
use latypus.Io.Ring.{reset, set}
use latypus.Common.{
  ℕ, ◌+◌, Bool, true, not, ◌&&◌, Option, none, some, List, [], ◌∷◌, ◌++◌, ◌==◌, length,
  if◌then◌else◌,
}
use latypus.Io.{store}
use latypus.Server.State.{
  Connection, ConnState, client_request, client_body, server_response, server_body, waiting,
  lingering_close, tls_handshake, Engine, Delegate, Stats, Events, poll_in, poll_out, Poll, Message,
  Action, router_tls_handshake, router_process_headers, worker_process_request,
  keepalive_wait_connection, linger_read_connection, Mask, router, keepalive, worker,
}
use latypus.Server.Table.{update, abort_connection}

-- The flags that a handler sets on its connection.
pub record Flags : Type 0 where
  pub request_has_body : Bool
  pub response_has_body : Bool
  pub connection_close : Bool

-- What the virtual handler and the response answer when a request is worked on: `to_buffer` is the
-- header text that the response writes to the connection's buffer, or none for the return of -1.
pub record Work : Type 0 where
  pub handle_request : Bool
  pub handled : Flags
  pub body_start : List ℕ
  pub populate_response : Bool
  pub populated : Flags
  pub to_buffer : Option (List ℕ)

abbrev pub crash : Engine → Engine
crash s = record s { fault = true }

abbrev pub set_state : Engine → ℕ → ConnState → Engine
set_state s i state = update s i (λ c. record c { state = state })

abbrev pub set_flags : Engine → ℕ → Flags → Engine
set_flags s i f = update s i λ c. record c {
  request_has_body = f.request_has_body;
  response_has_body = f.response_has_body;
  connection_close = f.connection_close;
}

-- A pollset has one entry for an object: a second `add_object` changes its events.
unfoldable pub add_poll : ℕ → ℕ → Events → List Poll → List Poll
add_poll t i e [] = record { thread = t; conn = i; events = e } ∷ []
add_poll t i e (p ∷ ps) =
    if p.thread == t && p.conn == i then record p { events = e } ∷ ps else p ∷ add_poll t i e ps

unfoldable pub remove_poll : ℕ → ℕ → List Poll → List Poll
remove_poll t i [] = []
remove_poll t i (p ∷ ps) = if p.thread == t && p.conn == i then ps else p ∷ remove_poll t i ps

unfoldable pub add_events : Delegate → Engine → ℕ → Events → Engine
add_events d s i e = record s { polls = add_poll d.thread i e s.polls }

unfoldable pub remove_events : Delegate → Engine → ℕ → Engine
remove_events d s i = record s { polls = remove_poll d.thread i s.polls }

-- What `populate_response_headers` came to: a call through the null handler, the return of -1, or
-- the length of the headers.
pub data Populated : Type 0 where
  crashed overflowed : Populated
  written : ℕ → Populated

-- The second half of `populate_response_headers`, from the copy to the buffer on.
unfoldable pub copy_headers : Delegate → Work → Engine → ℕ → Engine × Populated
copy_headers d w s i =
    let c = s.connections_all i in
    if not c.handler then (crash s, crashed) else elim (w.to_buffer) [
      | none ↦ (
        abort_connection
            (remove_events d (update s i (λ c. record c { buffer = reset c.buffer })) i) i,
        overflowed,
      )
      | some text ↦ elim (store c.buffer.buffer 0 text) [
        | none ↦ (crash s, crashed)
        | some bytes ↦ (
          update s i (λ c. record c {
            buffer = record (reset c.buffer) { buffer = bytes; back = length text };
          }),
          written (length text),
        )
      ]
    ]

-- A handler that fails to populate the response has the connection aborted, which clears the
-- handler pointer that is used next.
unfoldable pub populate_response_headers : Delegate → Work → Engine → ℕ → Engine × Populated
populate_response_headers d w s i =
    if not (s.connections_all i).handler
    then (crash s, crashed)
    else (let s1 = set_flags s i w.populated in
        copy_headers d w (if w.populate_response then s1 else abort_connection s1 i) i)

-- The state for the response, and a wait until it can be sent.
unfoldable pub start_response : Delegate → Engine → ℕ → Engine
start_response d s i =
    add_events d
      (set_state s i
        (if (s.connections_all i).response_has_body then server_body else server_response))
      i poll_out

unfoldable pub start_body : Delegate → Work → Engine → ℕ → Engine
start_body d w s i = elim (set (s.connections_all i).buffer w.body_start) [
  | none ↦ crash s
  | some r ↦
      add_events d (set_state (update s i (λ c. record c { buffer = r })) i client_body) i poll_in
]

-- What `worker_process_request` does with the headers.
unfoldable pub respond : Delegate → ℕ → Engine × Populated → Engine
respond d i (s, crashed) = s
respond d i (s, overflowed) = abort_connection s i
respond d i (s, written n) = if n == 0 then abort_connection s i else start_response d s i

unfoldable pub process_request : Delegate → Work → Engine → ℕ → Engine
process_request d w s i =
    if not (s.connections_all i).handler
    then crash s
    else (let s1 = set_flags s i w.handled in
        if not w.handle_request
        then abort_connection s1 i
        else if w.handled.request_has_body
        then start_body d w s1 i
        else respond d i (populate_response_headers d w s1 i))

-- The callback of an action.
unfoldable pub run_action : Delegate → Work → Engine → ℕ → Action → Engine
run_action d w s i router_tls_handshake = add_events d (set_state s i tls_handshake) i poll_in
run_action d w s i router_process_headers = add_events d (set_state s i client_request) i poll_in
run_action d w s i keepalive_wait_connection = add_events d (set_state s i waiting) i poll_in
run_action d w s i worker_process_request = process_request d w s i
run_action d w s i linger_read_connection = add_events d (set_state s i lingering_close) i poll_in

-- `http_server::handle_message`
unfoldable pub handle_message : Delegate → Work → Engine → Message → Engine
handle_message d w s m =
    run_action d w (update s m.connection_num (λ c. record c { last_activity = d.current_time }))
      m.connection_num m.action

-- `protocol_thread::choose_thread`
unfoldable pub choose_thread : Delegate → Mask → Option ℕ
choose_thread d mask = if d.serves mask then some d.thread else d.others mask

-- `protocol_thread::send_message`: a message to oneself is handled at once; a message that the
-- socket refuses for lack of space is queued, and any other failure is logged only.
unfoldable pub send_message : Delegate → Work → Engine → ℕ → Message → Engine
send_message d w s to m =
    if d.thread == to
    then handle_message d w s m
    else if d.sends m
    then record s { messages = s.messages ++ (m ∷ []) }
    else s

unfoldable pub forward_connection : Delegate → Work → Engine → ℕ → Mask → Action → Engine
forward_connection d w s i mask action = elim (choose_thread d mask) [
  | some to ↦ send_message d w s to (record { to_thread = to; action = action; connection_num = i })
  | none ↦ abort_connection s i
]

unfoldable pub dispatch_connection : Delegate → Work → Engine → ℕ → Engine
dispatch_connection d w s i = forward_connection d w s i router router_process_headers

unfoldable pub dispatch_connection_tls : Delegate → Work → Engine → ℕ → Engine
dispatch_connection_tls d w s i = forward_connection d w s i router router_tls_handshake

unfoldable pub work_connection : Delegate → Work → Engine → ℕ → Engine
work_connection d w s i = forward_connection d w s i worker worker_process_request

-- `connection::set_nodelay(true)`
unfoldable pub set_nodelay : Connection → Connection
set_nodelay c = elim c.sock [ some _ ↦ record c { nodelay = true } | none ↦ c ]

-- In the build with USE_NODELAY `nodelay` is `true`.
unfoldable pub keepalive_connection : Bool → Delegate → Work → Engine → ℕ → Engine
keepalive_connection use_nodelay d w s i =
    forward_connection d w (record (update s i set_idle) { stats = counted }) i keepalive
      keepalive_wait_connection
  where
    set_idle : Connection → Connection
    set_idle c = record (if use_nodelay then set_nodelay c else c) { buffer = reset c.buffer }

    counted : Stats
    counted = record s.stats { connections_keepalive = s.stats.connections_keepalive + 1 }

unfoldable pub linger_connection : Delegate → Work → Engine → ℕ → Engine
linger_connection d w s i =
    forward_connection d w (record s { stats = counted }) i keepalive linger_read_connection
  where
    counted : Stats
    counted = record s.stats { connections_linger = s.stats.connections_linger + 1 }
