-- ===== src/Database.antt =====
-- The PostgreSQL database of the platform: its tables (application/shared/migrations) and the
-- statements that the repository executes on them.
mod Tables
mod Sql
pub mod Newest
pub use Tables.*
unfoldable pub use Sql.*
