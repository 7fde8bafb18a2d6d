-- ===== src/Auth.antt =====
-- apps/api/app/auth/: credentials, sessions, second factor, rate limiting, permissions, routes.
pub mod Models
pub mod Users
pub mod Permissions
pub mod Sessions
pub mod Totp
pub mod Purge
pub mod RateLimit
pub mod Routes
pub mod OAuth
pub mod SignedPayload
