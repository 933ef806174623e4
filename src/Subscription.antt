-- ===== src/Subscription.antt =====
-- The administrator's two ways to change a subscription: PATCH, one field at a time, and the legacy
-- replacement.
pub mod Fields
pub mod Patch
pub mod Replacement
