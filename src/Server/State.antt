-- ===== src/Server/State.antt =====
-- The state of the HTTP server: connections, the engine's table of them, what its threads poll, and
-- the messages under way between them. From src/http_server.h, src/connection.h,
-- src/protocol_connection.h.
use latypus.Io.Ring.{Ring}
use latypus.Common.{ℕ, Bool, Option, List}

-- The `connection_state_*` of http_server.
pub data ConnState : Type 0 where
  free tls_handshake client_request client_body server_response server_body waiting
        lingering_close :
      ConnState

pub data SocketMode : Type 0 where
  plain tls : SocketMode

-- `http_server_connection` with its `connection`. The handler is a virtual object: `handler` says
-- whether the pointer is set.
pub record Connection : Type 0 where
  pub state : ConnState
  pub sock : Option (ℕ × SocketMode)
  pub nodelay : Bool
  pub last_activity : ℕ
  pub buffer : Ring
  pub handler : Bool
  pub request_has_body : Bool
  pub response_has_body : Bool
  pub connection_close : Bool

-- `http_server_engine_stats`
pub record Stats : Type 0 where
  pub connections_accepted : ℕ
  pub connections_aborted : ℕ
  pub connections_closed : ℕ
  pub connections_keepalive : ℕ
  pub connections_linger : ℕ
  pub requests_processed : ℕ

pub data Events : Type 0 where
  poll_in poll_out : Events

-- The `action_*` and `thread_mask_*` of http_server.
pub data Action : Type 0 where
  router_tls_handshake router_process_headers worker_process_request keepalive_wait_connection
        linger_read_connection :
      Action

pub data Mask : Type 0 where
  listener router keepalive worker : Mask

-- A connection in the pollset of a thread.
pub record Poll : Type 0 where
  pub thread : ℕ
  pub conn : ℕ
  pub events : Events

-- A `protocol_message` on its way to a thread.
pub record Message : Type 0 where
  pub to_thread : ℕ
  pub action : Action
  pub connection_num : ℕ

-- Connections are named by their index in `connections_all`; the head of `connections_free` is the
-- back of the vector. `fault` records undefined behaviour: a null handler called, memory overrun.
pub record Engine : Type 0 where
  pub connections_all : ℕ → Connection
  pub connections_free : List ℕ
  pub stats : Stats
  pub polls : List Poll
  pub messages : List Message
  pub fault : Bool

-- `protocol_thread_delegate`: the thread that runs a handler. `sends` says whether a message to
-- another thread arrives, at once or by its queue; `others` is the engine's choice of a thread.
pub record Delegate : Type 0 where
  pub thread : ℕ
  pub current_time : ℕ
  pub serves : Mask → Bool
  pub others : Mask → Option ℕ
  pub sends : Message → Bool
  pub connection_timeout : ℕ
  pub keepalive_timeout : ℕ
  pub io_buffer_size : ℕ
