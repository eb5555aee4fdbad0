-- ===== src/Mysock.antt =====
-- The socket layer around the transport: mysock.c, mysock_api.c, stcp_api.c, mysock_hash.h and
-- connection_demux.c of transport-layer/src.
pub mod State
pub mod Queue
pub mod Table
pub mod Api
pub mod Stcp
pub mod HashTable
pub mod Demux
pub mod Framing
pub mod Receive
pub mod Tests
