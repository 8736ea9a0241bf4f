-- ===== src/Jobs/Invariant.antt =====
-- What holds of the rows of app/jobs between two calls, and that each write keeps it.
mod Rows
mod Writes
mod Inserts
mod Guards
mod Worker
mod Leases
mod Operators
pub use Rows.*
pub use Writes.*
pub use Inserts.*
pub use Guards.*
pub use Worker.*
pub use Leases.*
pub use Operators.*
