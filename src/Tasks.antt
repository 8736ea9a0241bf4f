-- ===== src/Tasks.antt =====
-- Canonical tasks: app/tasks. `Contracts`, `Models`, `Repository`, `Cycle`, `Guards`, `Service`,
-- `Details` and `ReminderJobs` hold the definitions, and the other children what is proved of them.
pub mod Contracts
pub mod Models
pub mod Repository
pub mod Cycle
pub mod Service
pub mod Guards
pub mod Details
pub mod Acyclic
pub mod Search
pub mod Dependencies
pub mod Locked
pub mod Transitions
pub mod ReminderJobs
mod Tests
