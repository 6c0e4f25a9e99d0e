-- ===== src/Keyboard.antt =====
-- The keyboard: src/embedder/keyboard.
pub mod SuperKeys
pub mod Forwarded
pub mod Stuck
pub mod Repeater
pub mod Routing
pub mod Hotkeys
pub mod Handling
pub mod Locked
pub mod Timers
pub mod Repeats
pub mod Gaming
pub mod KeyExamples
pub mod Examples
