-- ===== src/Directory.antt =====
-- apps/api/app/directory/: users, memberships and invitations.
pub mod Models
pub mod Service
pub mod TenantModels
pub mod Routes
pub mod Teams
