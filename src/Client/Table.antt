-- ===== src/Client/Table.antt =====
-- src/protocol_connection.h for the client, `init` and `free` of `http_client_connection`, and the
-- queues of connections by host.
use latypus.Io.Ring.{size, reset, resize}
use latypus.HttpRequest.{reset_request, resize_request}
use latypus.HttpMessage.{same_string}
use latypus.Common.{
  ℕ, Bool, true, false, Option, none, some, List, [], ◌∷◌, ◌++◌, ◌==◌, ltb, length, if◌then◌else◌,
}
use latypus.Server.State.{Events}
use latypus.Server.Forward.{add_poll, remove_poll}
use latypus.Client.State.{ClientConnection, ClientEngine, ClientDelegate, ClientState, free, Sizes}

abbrev pub update : ClientEngine → ℕ → (ClientConnection → ClientConnection) → ClientEngine
update s i f = record s {
  connections_all = λ j. if i == j then f (s.connections_all j) else s.connections_all j;
}

abbrev pub crash : ClientEngine → ClientEngine
crash s = record s { fault = true }

abbrev pub set_state : ClientEngine → ℕ → ClientState → ClientEngine
set_state s i state = update s i (λ c. record c { state = state })

abbrev pub add_events : ClientDelegate → ClientEngine → ℕ → Events → ClientEngine
add_events d s i e = record s { polls = add_poll d.thread i e s.polls }

abbrev pub remove_events : ClientDelegate → ClientEngine → ℕ → ClientEngine
remove_events d s i = record s { polls = remove_poll d.thread i s.polls }

-- `connection::close`
unfoldable pub close_socket : ClientConnection → ClientConnection
close_socket c = elim c.sock [ some _ ↦ record c { sock = none; nodelay = false } | none ↦ c ]

-- `http_client_connection::init`, with `connection::reset`, and whether the buffer's size could be
-- computed. The requests that wait for the connection stay.
unfoldable pub init : Sizes → ClientConnection → ClientConnection × Bool
unfolding close_socket
init z c =
    let c1 = record (close_socket c) {
      last_activity = 0;
      buffer = reset c.buffer;
      request = reset_request c.request;
      request_has_body = false;
      response_has_body = false;
      connection_close = true;
      state = free;
      handler = none;
      requests_processed = 0;
    } in
    if size c.buffer == 0
    then (elim (resize (reset c.buffer) z.io_buffer_size) [
      | some r ↦ (
        record c1 {
          buffer = r;
          request = resize_request z.header_buffer_size z.max_headers (reset_request c.request);
        },
        true,
      )
      | none ↦ (c1, false)
    ])
    else (c1, true)

-- `http_client_connection::free`: the requests that wait for the connection stay.
unfoldable pub release : ClientConnection → ClientConnection
release c = record c { state = free; handler = none }

-- `abort_connection` and `close_connection`, which are the same: the socket is closed, the connection
-- freed and put back.
unfoldable pub free_connection : ClientEngine → ℕ → ClientEngine
unfolding release close_socket
free_connection s i = record (update s i (λ c. release (close_socket c))) {
  connections_free = i ∷ s.connections_free;
}

-- A connection is added to the queue of its host.
unfoldable pub add_to_host : List ℕ → ℕ → List (List ℕ × List ℕ) → List (List ℕ × List ℕ)
add_to_host host i [] = (host, i ∷ []) ∷ []
add_to_host host i ((key, queue) ∷ hosts) =
    if same_string key host
    then (key, queue ++ (i ∷ [])) ∷ hosts
    else (key, queue) ∷ add_to_host host i hosts

unfoldable pub get_new_connection_for_url : Sizes → ClientEngine → List ℕ → ClientEngine × Option ℕ
unfolding init add_to_host
get_new_connection_for_url z s host = elim s.connections_free [
  | [] ↦ (s, none)
  | i ∷ rest ↦ (
    record (update s i (λ c. record ((init z c).0) { remote_host = host })) {
      connections_free = rest;
      connections_host_map = add_to_host host i s.connections_host_map;
      fault = if (init z (s.connections_all i)).1 then s.fault else true;
    },
    some i,
  )
]

-- `std::find_if`: the first connection of a queue with fewer requests than the limit.
unfoldable pub find_open : ClientEngine → ℕ → List ℕ → Option ℕ
find_open s limit [] = none
find_open s limit (i ∷ queue) =
    if ltb (length (s.connections_all i).url_requests) limit
    then some i
    else find_open s limit queue

-- The front goes to the back.
unfoldable pub rotate : List ℕ → List ℕ
rotate [] = []
rotate (i ∷ queue) = queue ++ (i ∷ [])

-- The connection that was found, and the queues after it.
unfoldable pub find_in_hosts :
    ClientEngine → ℕ → List ℕ → List (List ℕ × List ℕ) → Option ℕ × List (List ℕ × List ℕ)
unfolding find_open rotate
find_in_hosts s limit host [] = (none, [])
find_in_hosts s limit host ((key, queue) ∷ hosts) =
    let (found, hosts1) = find_in_hosts s limit host hosts in
    if same_string key host
    then (elim (find_open s limit queue) [
      | none ↦ (none, (key, queue) ∷ hosts)
      | some i ↦ (some i, (key, rotate queue) ∷ hosts)
    ])
    else (found, (key, queue) ∷ hosts1)

unfoldable pub get_existing_connection_for_url : ClientEngine → List ℕ → ℕ → ClientEngine × Option ℕ
unfolding find_in_hosts
get_existing_connection_for_url s host limit =
    let (found, hosts) = find_in_hosts s limit host s.connections_host_map in
    (record s { connections_host_map = hosts }, found)
