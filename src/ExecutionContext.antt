-- ===== src/ExecutionContext.antt =====
-- The execution context of a request: app/execution_context. `Contracts`, `Models`, `Repository`
-- and `Service` hold the definitions, `Transactions` what is proved of them.
pub mod Contracts
pub mod Models
pub mod Repository
pub mod Service
pub mod Transactions
mod Tests
