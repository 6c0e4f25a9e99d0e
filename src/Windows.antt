-- ===== src/Windows.antt =====
-- Windows: parts of src/embedder/meta_window_state.
pub mod AppIds
pub mod MetaWindowState
pub mod Recording
pub mod Marks
pub mod Resolved
pub mod Layers
pub mod Examples
