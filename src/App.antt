-- ===== src/App.antt =====
-- app/apiserver.go: the start of the server.
pub mod Config
pub mod Start
mod Examples
