-- ===== src/Responsibility/Kernel.antt =====
-- responsibility/service.py
pub mod Objects
pub mod History
pub mod Operations
pub mod Resources
pub mod Saved
pub mod Commitment
pub mod Capacity
mod Tests
