-- ===== src/Notification.antt =====
-- The notification server's loop side: src/embedder/notification.
pub mod NotificationState
pub mod Service
pub mod Order
pub mod Replies
pub mod Examples
