-- ===== src/Tenancy/Models.antt =====
-- apps/api/app/tenancy/models.py: the catalogue of tenants.
use blank.Prelude.{ℕ, Option, String}

pub data TenantState : Type 0 where
  active suspended : TenantState

pub record Tenant : Type 0 where
  pub id : ℕ
  pub slug : String
  pub name : String
  pub state : TenantState
  pub deleted_at : Option ℕ
