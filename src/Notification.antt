-- ===== src/Notification.antt =====
-- backend/src/notification: what a push says, and who is sent one.
pub mod Message
pub mod Fcm
pub mod Dispatch
pub mod Tests
