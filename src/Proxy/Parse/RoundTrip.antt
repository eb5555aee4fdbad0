-- ===== src/Proxy/Parse/RoundTrip.antt =====
-- Parsing, by http-proxy/src/proxy_parse.c, what it printed.
pub mod Line
pub mod Buffer
pub mod Lines
pub mod Again
pub mod Printed
