-- ===== src/Messaging.antt =====
-- Commands, events and their consumers: app/messaging. `Contracts`, `Models`, `Repository`,
-- `Audit`, `Commands`, `Envelopes` and `Consumer` hold the definitions, and the other children what
-- is proved of them.
pub mod Contracts
pub mod Models
pub mod Repository
pub mod Audit
pub mod Commands
pub mod Envelopes
pub mod Consumer
pub mod Streams
pub mod Frames
pub mod Consumption
pub mod Refinement
pub mod RoundTrip
pub mod Idempotence
pub mod Keys
pub mod Replays
pub mod Unstored
pub mod Retention
mod Tests
