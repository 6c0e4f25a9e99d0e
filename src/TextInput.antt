-- ===== src/TextInput.antt =====
-- The text input of the Flutter engine: src/embedder/flutter_engine/text_input.rs and the
-- model that it edits.
pub mod TextRange
pub mod Utf16
pub mod Model
pub mod Editing
pub mod Cursor
pub mod Surroundings
pub mod Zipper
pub mod Refines
pub mod Typing
pub mod Composition
pub mod Deleting
pub mod Field
pub mod Examples
