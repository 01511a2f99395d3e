-- ===== src/Safety.antt =====
-- The safety package: src/safety/safety.
pub mod Checks
pub mod Rules
pub mod Workspace
pub mod Validator
pub mod Manager
pub mod Readiness
pub mod Points
pub mod Blended
pub mod Gate
pub mod SafePoints
pub mod Sound
pub mod Scales
pub mod Extended
mod Tests
