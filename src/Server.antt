-- ===== src/Server.antt =====
-- src/main.rs, src/auth.rs: the server around the service: its configuration, its start, and the
-- authentication of requests.
pub mod Config
pub mod Auth
pub mod Admission
pub mod Metrics
pub mod Start
