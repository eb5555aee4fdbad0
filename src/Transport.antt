-- ===== src/Transport.antt =====
-- The STCP transport layer: transport-layer/src/transport.c and transport.h.
pub mod State
pub mod Segment
pub mod Loop
pub mod Connect
pub mod TcpSum
pub mod Tests
