-- ===== src/Tenancy.antt =====
-- apps/api/app/tenancy/: the catalogue of tenants, the resolution of a request's tenant, and the
-- guards that keep every session within the tenant of its context.
pub mod Models
pub mod Slug
pub mod Guards
pub mod Resolve
