-- ===== src/Controller.antt =====
-- controller/
pub mod Models
pub mod Recording
pub mod Guards
pub mod Operations
pub mod Apply
pub mod Bounds
pub mod Stable
pub mod Current
pub mod Machine
pub mod Moves
pub mod Handing
pub mod Progress
pub mod Refusals
pub mod Success
pub mod Start
pub mod Unreadable
mod Tests
