-- ===== src/Server/Tests.antt =====
-- The server at concrete states: two connections, one thread that serves every mask.
use latypus.Io.{of_size, store}
use latypus.Io.Ring.{Ring}
use latypus.Common.{◌≡◌, refl, true, false, some, none, [], ◌∷◌, arith}
use latypus.Server.State.{
  Connection, Engine, Delegate, Stats, plain, ConnState, client_body, client_request, waiting,
  poll_in, free,
}
use latypus.Server.Table.{
  new_connection, init, reset_socket, close_socket, close_and_free, indices_below, close_connection,
}
use latypus.Server.Forward.{
  Work, Flags, process_request, populate_response_headers, copy_headers, start_response, add_events,
  remove_events, dispatch_connection, forward_connection, send_message, handle_message, run_action,
  choose_thread,
}
use latypus.Server.Handlers.{
  Answers, Revents, finished, handle_connection, run_state, handle_state_client_body, resume,
  timeout_connection, timeout_state, timeout_after,
}
use latypus.Server.Accept.{handle_accept, accept_one}
use latypus.Server.Ownership.{tokens}
use latypus.Server.Ownership.Actions.{IsFitting}
use latypus.Server.Ownership.States.{handle_connection_conserves}
use latypus.Server.Ownership.Overflow.{process_request_frees_twice}
use latypus.Server.Ownership.Threads.{IsGood}
use latypus.Server.Ownership.Reach.{Reach, starts, steps, accepts, Reach-tokens}

abbrev ring : Ring
ring = record { buffer = 0 ∷ 0 ∷ 0 ∷ 0 ∷ []; back = 0; front = 4; mask = 3 }

abbrev in_state : ConnState → Connection
in_state state = record {
  state = state;
  sock = some (7, plain);
  nodelay = false;
  last_activity = 10;
  buffer = ring;
  handler = true;
  request_has_body = true;
  response_has_body = false;
  connection_close = false;
}

abbrev none_yet : Stats
none_yet = record {
  connections_accepted = 0;
  connections_aborted = 0;
  connections_closed = 0;
  connections_keepalive = 0;
  connections_linger = 0;
  requests_processed = 0;
}

-- Connection 0 is polled by thread 0; connection 1 is free.
abbrev polled_engine : ConnState → Engine
polled_engine state = record {
  connections_all = λ _. in_state state;
  connections_free = 1 ∷ [];
  stats = none_yet;
  polls = record { thread = 0; conn = 0; events = poll_in } ∷ [];
  messages = [];
  fault = false;
}

-- Nothing has been accepted yet.
abbrev started : Engine
started = record (polled_engine free) { connections_free = 1 ∷ 0 ∷ []; polls = [] }

abbrev delegate : Delegate
delegate = record {
  thread = 0;
  current_time = 100;
  serves = λ _. true;
  others = λ _. none;
  sends = λ _. true;
  connection_timeout = 60;
  keepalive_timeout = 5;
  io_buffer_size = 4;
}

abbrev no_flags : Flags
no_flags = record { request_has_body = false; response_has_body = false; connection_close = false }

abbrev work : Work
work = record {
  handle_request = true;
  handled = no_flags;
  body_start = [];
  populate_response = true;
  populated = no_flags;
  to_buffer = some (104 ∷ 105 ∷ []);
}

-- Headers that do not fit.
abbrev long_work : Work
long_work = record work { to_buffer = none }

abbrev answers : Work → Answers
answers w = record {
  work = w;
  handshake = finished;
  reader = λ _. ([], of_size 0);
  writer = λ xs. of_size 0;
  parsed = true;
  parse_error = false;
  path = none;
  read_request_body = of_size 0;
  write_response_body = λ r. (r, of_size 0);
  end_request = true;
  use_nodelay = false;
}

work-IsFitting : IsFitting work
work-IsFitting = record { populates = refl; fits = omega arith }

work-IsGood : IsGood delegate work
work-IsGood = record { fitting = work-IsFitting; sent = λ _. refl }

abbrev quiet : Revents
quiet = record { hup = false; err = false; invalid = false }

body_end-fault :
    (handle_connection delegate (answers work) (polled_engine client_body) 0 quiet).fault ≡ false
unfolding handle_connection run_state handle_state_client_body resume populate_response_headers
    copy_headers store start_response add_events
body_end-fault = refl

handle_connection_conserves_example :
    tokens 0 (handle_connection delegate (answers work) (polled_engine client_body) 0 quiet) ≡ 1
handle_connection_conserves_example =
    handle_connection_conserves delegate 0 0 (answers work) (polled_engine client_body) quiet
      work-IsFitting (λ _. refl) (refl, refl) (λ _. refl) body_end-fault

idle-fault : (timeout_connection delegate work (polled_engine waiting) 0).fault ≡ false
unfolding timeout_connection timeout_state timeout_after close_connection remove_events
    close_and_free
idle-fault = refl

abbrev accepted : Engine
accepted = handle_accept delegate work plain started (5 ∷ 6 ∷ 8 ∷ [])

started-indices : started.connections_free ≡ indices_below 2
unfolding indices_below
started-indices = refl

started-Reach : Reach 2 started
started-Reach = starts started started-indices refl refl

accepted-Reach : Reach 2 accepted
accepted-Reach =
    steps started accepted started-Reach refl
      (accepts delegate work plain started (5 ∷ 6 ∷ 8 ∷ []) work-IsGood)

accepted-fault : accepted.fault ≡ false
unfolding handle_accept accept_one new_connection init reset_socket close_socket dispatch_connection
    forward_connection send_message handle_message run_action choose_thread add_events
accepted-fault = refl

Reach-tokens_example : tokens 1 accepted ≡ 1
Reach-tokens_example = Reach-tokens 2 accepted 1 accepted-Reach accepted-fault

process_request_frees_twice_example :
    (process_request delegate long_work (polled_engine client_request) 0).connections_free
    ≡ 0 ∷ 0 ∷ 1 ∷ []
process_request_frees_twice_example =
    process_request_frees_twice delegate long_work (polled_engine client_request) 0 refl refl refl
      refl refl
