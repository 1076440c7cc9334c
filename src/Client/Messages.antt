-- ===== src/Client/Messages.antt =====
-- src/http_client.cc: the message callbacks, and handing a connection to a thread. A callback runs at
-- once where the chosen thread is the one that asks. Logging is left out.
use latypus.Io.{store}
use latypus.Io.Ring.{reset, size}
use latypus.HttpRequest.{
  Request, reset_request, set_part, set_field, method_part, uri_part, version_part, to_buffer,
}
use latypus.Io.{◌>>=◌}
use latypus.Common.{
  ℕ, Bool, false, not, Option, none, some, List, [], ◌∷◌, ◌++◌, ◌==◌, ltb, if◌then◌else◌,
}
use latypus.HttpMessage.{same_string}
use latypus.HttpMessage.Output.{result}
use latypus.Server.State.{SocketMode, plain, tls, poll_out}
use latypus.Client.State.{
  ClientEngine, ClientDelegate, tls_handshake, client_request, UrlRequest, ClientAction,
  connect_host, process_tls_handshake, process_next_request, keepalive_wait_connection, ClientMask,
  worker, ClientMessage,
}
use latypus.Client.Table.{update, crash, set_state, add_events, remove_events, free_connection}

-- What the resolver, the socket and the virtual handler answer. `populate_request` may set the
-- strings and fields of the request, and says whether there is a body.
pub record Next : Type 0 where
  pub lookup : Bool
  pub connects : Option ℕ
  pub ssl_ctx : Bool
  pub populate_request : Request → Request × Bool
  pub request_has_body : Bool

abbrev pub set_request : ClientEngine → ℕ → Request → ClientEngine
set_request s i r = update s i (λ c. record c { request = r })

abbrev pub http_1_1 : List ℕ
http_1_1 = b'H' ∷ b'T' ∷ b'T' ∷ b'P' ∷ b'/' ∷ b'1' ∷ b'.' ∷ b'1' ∷ []

abbrev pub host_name : List ℕ
host_name = b'H' ∷ b'o' ∷ b's' ∷ b't' ∷ []

abbrev pub user_agent : List ℕ
user_agent = b'U' ∷ b's' ∷ b'e' ∷ b'r' ∷ b'-' ∷ b'A' ∷ b'g' ∷ b'e' ∷ b'n' ∷ b't' ∷ []

-- The request that a connection sends for one that waits. `none`: a write past the buffer.
unfoldable pub make_request : List ℕ → UrlRequest → Request → Option Request
make_request client_string u r = do
  r1 ← set_part version_part http_1_1 (reset_request r)
  r2 ← set_part method_part u.method r1
  r3 ← set_part uri_part u.path r2
  (r4, _) ← set_field host_name u.host r3
  (r5, _) ← set_field user_agent client_string r4
  some r5

-- The second half of `populate_request_headers`: the headers in the buffer and their length, or the
-- connection aborted and none.
unfoldable pub copy_request : ClientDelegate → ClientEngine → ℕ → ClientEngine × Option ℕ
copy_request d s i =
    let c = s.connections_all i in
    elim (result (to_buffer c.request (size c.buffer))) [
      | none ↦ (
        free_connection (remove_events d (update s i (λ c. record c { buffer = reset c.buffer })) i)
            i,
        none,
      )
      | some out ↦ elim (store c.buffer.buffer 0 out.bytes) [
        | none ↦ (crash s, none)
        | some bytes ↦ (
          update s i (λ c. record c {
            buffer = record (reset c.buffer) { buffer = bytes; back = out.total };
          }),
          some out.total,
        )
      ]
    ]

-- A handler that fails to populate the request has the connection aborted; the headers are copied
-- even so.
unfoldable pub populate_request_headers :
    ClientDelegate → Next → ClientEngine → ℕ → ClientEngine × Option ℕ
unfolding copy_request
populate_request_headers d a s i =
    let (r, populated) = a.populate_request (s.connections_all i).request in
    let s1 = update s i (λ c. record c { request = r; request_has_body = a.request_has_body }) in
    copy_request d (if populated then s1 else free_connection s1 i) i

-- What `process_next_request` does with the headers.
unfoldable pub send_request : ClientDelegate → ℕ → ClientEngine × Option ℕ → ClientEngine
send_request d i (s, none) = free_connection s i
send_request d i (s, some n) =
    if ltb 0 n then add_events d (set_state s i client_request) i poll_out else free_connection s i

-- The request at the head of the connection's list.
unfoldable pub run_next_request : ClientDelegate → Next → ClientEngine → ℕ → ClientEngine
unfolding populate_request_headers send_request
run_next_request d a s i = elim (s.connections_all i).url_requests [
  | [] ↦ crash s
  | u ∷ _ ↦ elim (make_request d.client_string u (s.connections_all i).request) [
    | none ↦ crash s
    | some r ↦ send_request d i (
        populate_request_headers d a
          (update s i (λ c. record c { handler = some u.handler; request = r })) i)
  ]
]

unfoldable pub run_tls_handshake : ClientDelegate → ClientEngine → ℕ → ClientEngine
run_tls_handshake d s i = set_state (add_events d s i poll_out) i tls_handshake

-- `protocol_thread::choose_thread`
unfoldable pub choose_thread : ClientDelegate → ClientMask → Option ℕ
choose_thread d mask = if d.serves mask then some d.thread else d.others mask

-- `http_client::handle_message`, with the callback of the message's action.
abbrev pub deliver :
    ClientDelegate → (ClientEngine → ℕ → ClientEngine) → ClientEngine → ℕ → ClientEngine
deliver d callback s i = callback (update s i (λ c. record c { last_activity = d.current_time })) i

-- `forward_connection` and `send_message`, with the callback of the action.
unfoldable pub forward_connection :
    ClientDelegate
    → ClientMask
    → ClientAction
    → (ClientEngine → ℕ → ClientEngine)
    → ClientEngine
    → ℕ
    → ClientEngine
unfolding choose_thread
forward_connection d mask action callback s i = elim (choose_thread d mask) [
  | none ↦ free_connection s i
  | some to ↦
      let m : ClientMessage = record { to_thread = to; action = action; connection_num = i } in
      if d.thread == to
      then deliver d callback s i
      else if d.sends m
      then record s { messages = s.messages ++ (m ∷ []) }
      else s
]

unfoldable pub process_connection : ClientDelegate → Next → ClientEngine → ℕ → ClientEngine
process_connection d a s i =
    forward_connection d worker process_next_request (run_next_request d a) s i

unfoldable pub process_connection_tls : ClientDelegate → ClientEngine → ℕ → ClientEngine
process_connection_tls d s i =
    forward_connection d worker process_tls_handshake (run_tls_handshake d) s i

abbrev pub https_text : List ℕ
https_text = b'h' ∷ b't' ∷ b't' ∷ b'p' ∷ b's' ∷ []

abbrev pub http_text : List ℕ
http_text = b'h' ∷ b't' ∷ b't' ∷ b'p' ∷ []

abbrev set_sock : ClientEngine → ℕ → ℕ → SocketMode → ClientEngine
set_sock s i fd mode = update s i (λ c. record c { sock = some (fd, mode); nodelay = false })

-- `connect_host`, once the address is known. A socket whose connection fails is closed by the abort.
unfoldable pub connect_scheme : ClientDelegate → Next → ClientEngine → ℕ → List ℕ → ClientEngine
connect_scheme d a s i scheme =
    if same_string scheme https_text
    then (if not a.ssl_ctx then crash s else elim a.connects [
      | none ↦ free_connection s i
      | some fd ↦ process_connection_tls d (set_sock s i fd tls) i
    ])
    else if same_string scheme http_text
    then (elim a.connects [
      | none ↦ free_connection s i
      | some fd ↦ process_connection d a (set_sock s i fd plain) i
    ])
    else s

unfoldable pub run_connect_host : ClientDelegate → Next → ClientEngine → ℕ → ClientEngine
unfolding connect_scheme
run_connect_host d a s i = elim (s.connections_all i).url_requests [
  | [] ↦ crash s
  | u ∷ _ ↦ if a.lookup then connect_scheme d a s i u.scheme else free_connection s i
]

-- The callback of an action.
unfoldable pub run_action : ClientDelegate → Next → ClientAction → ClientEngine → ℕ → ClientEngine
run_action d a connect_host s i = run_connect_host d a s i
run_action d a process_tls_handshake s i = run_tls_handshake d s i
run_action d a process_next_request s i = run_next_request d a s i
run_action d a keepalive_wait_connection s i = s

unfoldable pub handle_message : ClientDelegate → Next → ClientEngine → ClientMessage → ClientEngine
handle_message d a s m = deliver d (run_action d a m.action) s m.connection_num
