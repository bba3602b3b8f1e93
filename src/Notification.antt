-- ===== src/Notification.antt =====
-- services/notification-service: the notices that appointment events plan, and their delivery.
pub mod Store
pub mod Repository
pub mod Consumer
pub mod Worker
pub mod Final
pub mod Redelivered
pub mod Attempts
