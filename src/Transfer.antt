-- ===== src/Transfer.antt =====
-- The programs of transport-layer/src/client.c and server.c, which pass a file over a mysocket.
pub mod Socket
pub mod Line
pub mod Numbers
pub mod Server
pub mod Client
pub mod Fetch
pub mod Refusal
mod Tests
