-- ===== src/Lifecycle.antt =====
-- pkg/lifecycle
pub mod State
pub mod Capability
pub mod Agent
pub mod Interleaving
pub mod Builder
mod Tests
