-- ===== src/Audit.antt =====
-- apps/api/app/audit/: the audit log of a tenant.
pub mod Log
pub mod Pages
