-- ===== src/Proxy/Parse.antt =====
-- http-proxy/src/proxy_parse.c: HTTP requests, read from a buffer and printed into one.
pub mod Strings
pub mod Headers
pub mod Request
pub mod Print
pub mod Ends
pub mod Faults
pub mod RoundTrip
pub mod Tests
