-- ===== src/Notifications.antt =====
-- packages/notifications/src/index.ts: mail by the Resend service.
mod Tests
pub mod Email
