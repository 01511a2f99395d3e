-- ===== src/Perception.antt =====
-- src/gp4_perception/gp4_perception: what the perception node publishes of its detections.
pub mod Tracker
pub mod Entries
pub mod Retained
pub mod Fading
mod Tests
