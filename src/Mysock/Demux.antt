-- ===== src/Mysock/Demux.antt =====
-- transport-layer/src/connection_demux.c: the pending connections of a listening mysocket, and the
-- calls of mysock_api.c that use them. `user_data` is NULL at the only call, and is left out; the
-- messages of DEBUG_LOG are not in the build.
pub mod Pending
pub mod Slots
pub mod Capacity
pub mod Backlog
pub mod Connections
pub mod Listening
