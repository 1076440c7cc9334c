-- ===== src/Server/Accept.antt =====
-- src/http_server.cc: `handle_accept`.
use latypus.Common.{ℕ, ◌+◌, false, none, some, List, [], ◌∷◌}
use latypus.Server.State.{Connection, Engine, Delegate, Stats, SocketMode, plain, tls}
use latypus.Server.Table.{update, new_connection}
use latypus.Server.Forward.{Work, dispatch_connection, dispatch_connection_tls}

-- `connection::accept` and `accept_tls`
abbrev pub accept : ℕ → SocketMode → Connection → Connection
accept fd mode c = record c { sock = some (fd, mode); nodelay = false }

abbrev pub dispatch : SocketMode → Delegate → Work → Engine → ℕ → Engine
dispatch plain d w s i = dispatch_connection d w s i
dispatch tls d w s i = dispatch_connection_tls d w s i

-- One round of the loop, for a descriptor that `accept` returned. With no free connection the
-- descriptor is closed.
unfoldable pub accept_one : Delegate → Work → SocketMode → Engine → ℕ → Engine
accept_one d w mode s fd =
    let (conn, s1) = new_connection d s in
    elim conn [
      | none ↦ s1
      | some i ↦ dispatch mode d w (record (update s1 i (accept fd mode)) { stats = counted }) i
    ]
  where
    counted : Stats
    counted = record s.stats { connections_accepted = s.stats.connections_accepted + 1 }

-- The loop goes on until `accept` fails; the list is what it returned before.
unfoldable pub handle_accept : Delegate → Work → SocketMode → Engine → List ℕ → Engine
handle_accept d w mode s [] = s
handle_accept d w mode s (fd ∷ fds) = handle_accept d w mode (accept_one d w mode s fd) fds
