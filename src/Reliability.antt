-- ===== src/Reliability.antt =====
-- core/reliability.py
pub mod Circuit
pub mod Policy
pub mod Controls
mod Tests
