-- ===== src/Router.antt =====
-- The simple router, router/src/router.
pub mod Checksum
pub mod State
pub mod Interfaces
pub mod Routes
pub mod ArpCache
pub mod Machine
pub mod Send
pub mod Errors
pub mod Requests
pub mod Handlers
pub mod Server
pub mod Invariant
pub mod Tests
