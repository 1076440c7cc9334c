-- ===== src/Client.antt =====
-- src/http_client.cc: the life of a client's connection, and the requests that wait for it.
pub mod State
pub mod Table
pub mod Messages
pub mod Handlers
pub mod Submit
pub mod Body
pub mod Endless
pub mod Requests
pub mod Served
pub mod Enqueue
pub mod Lost
mod Tests
