-- ===== src/Services.antt =====
-- The package internal/services.
pub mod Token
pub mod TwoFa
pub mod Subscription
pub mod User
pub mod Notification
pub mod Review
pub mod Category
pub mod Access
pub mod Dataset
