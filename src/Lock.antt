-- ===== src/Lock.antt =====
-- The session lock: src/embedder/lock.
pub mod LockState
pub mod Session
pub mod Auth
pub mod Sleep
pub mod Step
pub mod Held
pub mod Invariant
pub mod AuthKeeps
pub mod SleepKeeps
pub mod Reach
pub mod Guarded
pub mod Security
pub mod Suspend
pub mod Prepare
pub mod Overtaken
pub mod Restore
pub mod Examples
