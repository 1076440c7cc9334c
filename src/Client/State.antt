-- ===== src/Client/State.antt =====
-- The state of the HTTP client: connections with the requests that wait for them, the engine's table
-- of them, what its threads poll, and the messages under way. From src/http_client.h,
-- src/protocol_connection.h and src/connection.h. The response is left to the parser.
use latypus.Common.{ℕ, Bool, Option, List}
use latypus.Io.Ring.{Ring}
use latypus.HttpRequest.{Request}
use latypus.Server.State.{Poll, SocketMode}

-- The `connection_state_*` of http_client.
pub data ClientState : Type 0 where
  free tls_handshake client_request client_body server_response server_body waiting : ClientState

-- `http_client_request` with its `url`. A handler is an object of the caller, known by a number.
pub record UrlRequest : Type 0 where
  pub method : List ℕ
  pub scheme : List ℕ
  pub host : List ℕ
  pub path : List ℕ
  pub handler : ℕ

-- `http_client_connection` with its `connection`.
pub record ClientConnection : Type 0 where
  pub state : ClientState
  pub sock : Option (ℕ × SocketMode)
  pub nodelay : Bool
  pub last_activity : ℕ
  pub buffer : Ring
  pub request : Request
  pub handler : Option ℕ
  pub request_has_body : Bool
  pub response_has_body : Bool
  pub connection_close : Bool
  pub remote_host : List ℕ
  pub url_requests : List UrlRequest
  pub requests_processed : ℕ

-- The `action_*` and `thread_mask_*` of http_client.
pub data ClientAction : Type 0 where
  connect_host process_tls_handshake process_next_request keepalive_wait_connection : ClientAction

pub data ClientMask : Type 0 where
  connect worker keepalive : ClientMask

pub record ClientMessage : Type 0 where
  pub to_thread : ℕ
  pub action : ClientAction
  pub connection_num : ℕ

-- Connections are named by their index in `connections_all`; the head of `connections_free` is the
-- back of the vector. `fault` records undefined behaviour, a null handler called or the front of an
-- empty list taken, and the exit for want of an SSL context.
pub record ClientEngine : Type 0 where
  pub connections_all : ℕ → ClientConnection
  pub connections_free : List ℕ
  pub connections_host_map : List (List ℕ × List ℕ)
  pub polls : List Poll
  pub messages : List ClientMessage
  pub fault : Bool

-- The thread that runs a handler. `sends` says whether a message to another thread arrives, at once or
-- by its queue; `others` is the engine's choice of a thread.
pub record ClientDelegate : Type 0 where
  pub thread : ℕ
  pub current_time : ℕ
  pub serves : ClientMask → Bool
  pub others : ClientMask → Option ℕ
  pub sends : ClientMessage → Bool
  pub connection_timeout : ℕ
  pub keepalive_timeout : ℕ
  pub client_string : List ℕ

-- `config`
pub record Sizes : Type 0 where
  pub io_buffer_size : ℕ
  pub header_buffer_size : ℕ
  pub max_headers : ℕ
