-- ===== src/Journal.antt =====
-- The event journal of stores/memory.py, with the `Work` records, and the calls that may raise.
mod Models
mod Monad
pub mod Errors
pub mod Order
pub mod Logic
unfoldable pub use Models.*
unfoldable pub use Monad.*
