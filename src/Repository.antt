-- ===== src/Repository.antt =====
-- The class Repository of application/shared/repository.py. Each method is one transaction: a
-- function of the tables that either fails, and leaves them as they were, or returns its value
-- with the tables that it commits. `now` is the transaction's NOW(), and `uuid n` is what its n-th
-- call of uuid4() returns.
pub mod Customers
pub mod Jobs
pub mod Outbox
pub mod Lookup
pub mod Steps
pub mod Fencing
pub mod Rows
pub mod Completed
pub mod Consistency
pub mod Preservation
pub mod Completion
pub mod Announcement
pub mod DueEvents
pub mod Dispatch
pub mod Transitions
pub mod Actions
pub mod Board
pub mod Claiming
pub mod Publishing
pub mod Finished
pub mod EventLife
pub mod BoardSteps
pub mod Refinement
pub mod BoardAnswers
