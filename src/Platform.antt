-- ===== src/Platform.antt =====
-- The earlier generation of the services (services/platform_app): the repository of jobs, the queue
-- client and the worker.
pub mod Tables
pub mod World
pub mod Queue
pub mod Worker
pub mod Stored
pub mod Rules
pub mod Processing
pub mod Deleting
pub mod Handled
pub mod Api
pub mod Sending
pub mod Logging
pub mod Failing
pub mod Duplicates
pub mod Undeleted
