-- ===== src/Tests.antt =====
-- The theorems about application/, applied to concrete tables, settings and worlds.
pub mod Fixtures
pub mod Repository
pub mod Worker
pub mod Board
pub mod Http
pub mod Api
pub mod Platform
