-- ===== src/Client/Tests.antt =====
-- A client with one connection, on which a request waits.
use latypus.Io.{of_size}
use latypus.HttpMessage.{
  set_header_field, add_field, append_text, alloc_string, find_field, bytes_writable, same_string,
  compare_strings, reset,
}
use latypus.HttpMessage.Output.{put_line, put_fields, result}
use latypus.HttpRequest.{Request, to_buffer, set_part, set_field, reset_request}
use latypus.HttpResponse.{parse_none}
use latypus.Common.{◌≡◌, refl, true, false, none, some, [], ◌∷◌, replicate, arith}
use latypus.Server.Handlers.{finished, Revents}
use latypus.Client.State.{
  ClientConnection, ClientEngine, ClientDelegate, UrlRequest, Sizes, server_body,
  process_next_request, ClientMessage,
}
use latypus.Client.Table.{free_connection}
use latypus.Client.Messages.{Next, http_text, make_request}
use latypus.Client.Handlers.{ClientAnswers, handle_connection, handle_state_server_body}
use latypus.Client.Submit.{submit_request}
use latypus.Client.Requests.{requests}
use latypus.Client.Served.{Served, client_event_requests}
use latypus.Client.Enqueue.{Enqueued, submit_request-Enqueued}
use latypus.Client.Body.{body_reader}
use latypus.Client.Endless.{server_body_endless}
use latypus.Client.Lost.{Abandoned, submit_request-Abandoned}

abbrev get_a : UrlRequest
get_a = record {
  method = b'G' ∷ [];
  scheme = http_text;
  host = b'h' ∷ [];
  path = b'/' ∷ b'a' ∷ [];
  handler = 1;
}

abbrev get_b : UrlRequest
get_b = record {
  method = b'G' ∷ [];
  scheme = http_text;
  host = b'h' ∷ [];
  path = b'/' ∷ b'b' ∷ [];
  handler = 2;
}

abbrev blank_request : Request
blank_request = record {
  message = record {
    buffer = replicate 64 0;
    buffer_offset = 0;
    max_headers = 4;
    header_list = [];
    header_map = [];
    overflow = false;
  };
  parse_type = parse_none;
  request_method = none;
  request_uri = none;
  fragment = none;
  request_path = none;
  query_string = none;
  http_version = none;
}

abbrev reading : ClientConnection
reading = record {
  state = server_body;
  sock = none;
  nodelay = false;
  last_activity = 0;
  buffer = record { buffer = replicate 8 0; back = 0; front = 8; mask = 7 };
  request = blank_request;
  handler = some 1;
  request_has_body = false;
  response_has_body = true;
  connection_close = false;
  remote_host = b'h' ∷ [];
  url_requests = get_a ∷ get_b ∷ [];
  requests_processed = 0;
}

abbrev one_connection : ClientEngine
one_connection = record {
  connections_all = λ _. reading;
  connections_free = [];
  connections_host_map = (b'h' ∷ [], 0 ∷ []) ∷ [];
  polls = [];
  messages = [];
  fault = false;
}

abbrev thread_0 : ClientDelegate
thread_0 = record {
  thread = 0;
  current_time = 9;
  serves = λ _. true;
  others = λ _. none;
  sends = λ _. true;
  connection_timeout = 5;
  keepalive_timeout = 5;
  client_string = b'l' ∷ [];
}

abbrev next : Next
next = record {
  lookup = true;
  connects = some 4;
  ssl_ctx = false;
  populate_request = λ r. (r, true);
  request_has_body = false;
}

abbrev answers : ClientAnswers
answers = record {
  next = next;
  handshake = finished;
  reader = λ _. ([], of_size 0);
  writer = λ _. of_size 0;
  parsed = true;
  parse_error = false;
  has_body = true;
  closes = false;
  body_start = [];
  write_request_body = of_size 0;
  read_response_body = λ r. (r, of_size 0);
  end_request = true;
}

abbrev sizes : Sizes
sizes = record { io_buffer_size = 8; header_buffer_size = 64; max_headers = 4 }

abbrev readable : Revents
readable = record { hup = false; err = false; invalid = false }

abbrev to_process : ClientMessage
to_process = record { to_thread = 0; action = process_next_request; connection_num = 0 }

client_event_requests_example :
    Served answers 0 0 one_connection (handle_connection thread_0 answers one_connection 0 readable)
client_event_requests_example = client_event_requests thread_0 answers one_connection 0 readable 0

submit_request-Enqueued_example :
    Enqueued one_connection get_b (submit_request (some thread_0) next sizes one_connection get_b 3)
submit_request-Enqueued_example =
    submit_request-Enqueued (some thread_0) next sizes one_connection get_b 3

submit_request-Abandoned_example :
    Abandoned one_connection 0 get_b
      (submit_request (some thread_0) next sizes (free_connection one_connection 0) get_b 3)
submit_request-Abandoned_example =
    submit_request-Abandoned (some thread_0) next sizes one_connection 0 get_b get_a (get_b ∷ []) []
      [] 3 refl refl refl (omega arith)

-- The request that is made of the first that waits.
abbrev made : Request
made = elim (make_request (b'l' ∷ []) get_a blank_request) [ none ↦ blank_request | some r ↦ r ]

made_request : make_request (b'l' ∷ []) get_a blank_request ≡ some made
unfolding make_request set_part set_field reset_request reset alloc_string append_text
    set_header_field add_field find_field bytes_writable same_string compare_strings
made_request = refl

-- Its headers take more than the eight bytes of the buffer.
made_too_long : result (to_buffer made 8) ≡ none
unfolding to_buffer put_line put_fields make_request set_part set_field reset_request reset
    alloc_string append_text set_header_field add_field find_field bytes_writable same_string
    compare_strings
made_too_long = refl

server_body_endless_example :
    requests 0 (
      handle_state_server_body thread_0
        (record answers {
          read_response_body =
              body_reader (record { content_length = none; total_read = 0 }) 104 answers.reader;
        })
        one_connection
        0)
    ≡ get_a ∷ get_b ∷ []
server_body_endless_example =
    server_body_endless thread_0 answers one_connection 0 0
      (record { content_length = none; total_read = 0 }) 104 answers.reader refl (omega arith)
