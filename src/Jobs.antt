-- ===== src/Jobs.antt =====
-- Durable execution: app/jobs. `Contracts`, `Schedules`, `Models`, `Repository` and `Service` hold
-- the definitions, and the other children what is proved of them.
pub mod Contracts
pub mod Retry
pub mod Schedules
pub mod Models
pub mod Repository
pub mod Session
pub mod Service
pub mod Claimable
pub mod Claims
pub mod Liveness
pub mod Invariant
pub mod Calls
pub mod Safety
pub mod Lease
pub mod Events
pub mod Ownership
pub mod Fencing
pub mod Idempotence
pub mod Recurrence
mod Tests
