-- ===== src/Server.antt =====
-- src/server: the HTTP endpoint.
pub mod Routes
mod Examples
