-- ===== src/Auth.antt =====
-- Signing in and being allowed (src/auth, src/permissions).
pub mod Sessions
pub mod Access
pub mod Roles
pub mod Totp
