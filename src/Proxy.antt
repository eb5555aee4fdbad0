-- ===== src/Proxy.antt =====
-- The HTTP proxy: http-proxy/src/proxy.c.
pub mod Sockets
pub mod Parse
pub mod Setup
pub mod Client
pub mod Receive
pub mod Deliver
pub mod Loop
pub mod Service
pub mod Tests
