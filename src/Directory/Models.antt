-- ===== src/Directory/Models.antt =====
-- apps/api/app/directory/models.py: a global user, and its membership of a tenant with a role.
-- The columns that the server fills, `created_at` and `updated_at`, are left out.
use blank.Prelude.{ℕ, Option, String}

pub record User : Type 0 where
  pub id : ℕ
  pub email : String
  pub display_name : Option String

pub record Membership : Type 0 where
  pub id : ℕ
  pub user_id : ℕ
  pub tenant_id : ℕ
  pub role : String
