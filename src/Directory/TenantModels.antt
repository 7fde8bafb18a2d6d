-- ===== src/Directory/TenantModels.antt =====
-- apps/api/app/directory/tenant_models.py: the teams of a tenant, as its session sees them, with the
-- audit log that stands in the same database. `tenant_id` and `created_at` are left out.
use blank.Prelude.{ℕ, Option, List, String}
use blank.Audit.Log.{AuditEvent}

pub record Team : Type 0 where
  pub id : ℕ
  pub name : String
  pub description : Option String

pub record TeamMember : Type 0 where
  pub id : ℕ
  pub team_id : ℕ
  pub user_id : ℕ

pub record TenantDb : Type 0 where
  pub teams : List Team
  pub team_members : List TeamMember
  pub audit : List AuditEvent
