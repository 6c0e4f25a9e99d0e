-- ===== src/Portal.antt =====
-- The desktop portal backend: src/embedder/portal.
pub mod Types
pub mod Constraints
pub mod Ledger
pub mod Closing
pub mod Sessions
pub mod Calls
pub mod Decisions
pub mod Answers
pub mod Grants
pub mod Streams
pub mod Sharing
pub mod Producer
pub mod Balance
pub mod Links
pub mod Kept
pub mod Starting
pub mod Ending
pub mod Sweeps
pub mod Frontend
pub mod Decided
pub mod Answered
pub mod Shared
pub mod Dispatched
pub mod Run
pub mod Replies
pub mod Live
pub mod LiveCalls
pub mod LiveDispatch
pub mod Loss
pub mod Restored
pub mod Examples
