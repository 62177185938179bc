-- ===== src/Server.antt =====
-- internal/server: the parts of the HTTP server that keep state or decide who may do what.
pub mod Auth
pub mod Logs
