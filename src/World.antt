-- ===== src/World.antt =====
-- A process of the platform among others. The process calls PostgreSQL, SQS, S3 and the clock; what
-- it meets at each call is a moment, which the environment chooses: the time, the UUIDs that uuid4()
-- draws, an exception of the library that makes the call, the answer of a long poll, and what
-- happened since the last call: transactions of other processes, and beats of this process's own
-- heartbeat thread.
mod State
mod Monad
pub mod Rules
pub mod Keeps
unfoldable pub use State.*
unfoldable pub use Monad.*
