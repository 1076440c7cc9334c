-- ===== src/Server/Table.antt =====
-- src/protocol_connection.h, the `connection` operations that it calls, and `init` and `free` of
-- `http_server_connection`.
use latypus.Io.Ring.{size, reset, resize}
use latypus.Common.{
  ℕ, zero, suc, ◌+◌, Bool, true, false, Option, none, some, List, [], ◌∷◌, ◌==◌, if◌then◌else◌,
}
use latypus.Server.State.{Connection, Engine, Delegate, Stats, free}

abbrev pub update : Engine → ℕ → (Connection → Connection) → Engine
update s i f = record s {
  connections_all = λ j. if i == j then f (s.connections_all j) else s.connections_all j;
}

-- `connection::close`
unfoldable pub close_socket : Connection → Connection
close_socket c = elim c.sock [ some _ ↦ record c { sock = none; nodelay = false } | none ↦ c ]

-- `connection::reset`; the addresses are left out.
unfoldable pub reset_socket : Connection → Connection
unfolding close_socket
reset_socket c = record (close_socket c) { last_activity = 0 }

-- `http_server_connection::init`, and whether the buffer's size could be computed.
unfoldable pub init : ℕ → Connection → Connection × Bool
unfolding reset_socket
init io_buffer_size c =
    let c1 = record (reset_socket c) {
      buffer = reset c.buffer;
      request_has_body = false;
      response_has_body = false;
      connection_close = true;
      state = free;
    } in
    if size c.buffer == 0
    then (elim (resize (reset c.buffer) io_buffer_size) [
      | some r ↦ (record c1 { buffer = r }, true)
      | none ↦ (c1, false)
    ])
    else (c1, true)

-- `http_server_connection::free`
unfoldable pub release : Connection → Connection
release c = record c { state = free; handler = false }

-- `protocol_connection_state::init` fills the free list with the indices from 0 up.
unfoldable pub indices_below : ℕ → List ℕ
indices_below zero = []
indices_below (suc n) = n ∷ indices_below n

unfoldable pub new_connection : Delegate → Engine → Option ℕ × Engine
unfolding init
new_connection d s = elim s.connections_free [
  | [] ↦ (none, s)
  | i ∷ rest ↦ (
    some i,
    record (update s i (λ c. (init d.io_buffer_size c).0)) {
      connections_free = rest;
      fault = if (init d.io_buffer_size (s.connections_all i)).1 then s.fault else true;
    },
  )
]

unfoldable pub free_connection : Engine → ℕ → Engine
unfolding release
free_connection s i = record (update s i release) { connections_free = i ∷ s.connections_free }

-- `abort_connection` and `close_connection` of the table are the same.
unfoldable pub close_and_free : Engine → ℕ → Engine
unfolding close_socket free_connection
close_and_free s i = free_connection (update s i close_socket) i

-- Those of http_server count them apart.
unfoldable pub abort_connection : Engine → ℕ → Engine
unfolding close_and_free
abort_connection s i = close_and_free (record s { stats = counted }) i
  where
    counted : Stats
    counted = record s.stats { connections_aborted = s.stats.connections_aborted + 1 }

unfoldable pub close_connection : Engine → ℕ → Engine
unfolding close_and_free
close_connection s i = close_and_free (record s { stats = counted }) i
  where
    counted : Stats
    counted = record s.stats { connections_closed = s.stats.connections_closed + 1 }
