-- ===== src/Idle.antt =====
-- The screensaver: src/embedder/idle.
pub mod IdleState
pub mod Timers
pub mod Stages
pub mod Step
pub mod Recorded
pub mod Invariant
pub mod Arming
pub mod Keeps
pub mod Firing
pub mod Reach
pub mod Unchanged
pub mod Actions
pub mod Paused
pub mod Schedule
pub mod Wake
pub mod Examples
