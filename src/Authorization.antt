-- ===== src/Authorization.antt =====
-- Fixed-role authorization: app/authorization. `Contracts`, `Models`, `Repository` and `Service`
-- hold the definitions, `Effects`, `Requirements`, `Recorded` and `Decisions` what is proved of them.
pub mod Contracts
pub mod Models
pub mod Repository
pub mod Service
pub mod Effects
pub mod Requirements
pub mod Recorded
pub mod Decisions
mod Tests
