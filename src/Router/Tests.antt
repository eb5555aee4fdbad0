-- ===== src/Router/Tests.antt =====
-- Runs of the router's operations on small inputs.
pub mod Data
pub mod Frames
pub mod Caches
pub mod Sums
pub mod Loading
pub mod Serving
