-- ===== src/Server.antt =====
-- src/http_server.cc: the life of a connection, from `accept` to the free list.
pub mod State
pub mod Table
pub mod Forward
pub mod Handlers
pub mod Accept
pub mod Ownership
mod Tests
