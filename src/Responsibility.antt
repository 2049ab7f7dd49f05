-- ===== src/Responsibility.antt =====
-- The package responsibility/.
pub mod Models
pub mod Kernel
