-- ===== src/Tests/Tenancy.antt =====
-- The tenancy's theorems at one tenant and its rows.
use blank.Prelude.{
  ℕ, ◌≡◌, refl, Bool, true, false, ◌&&◌, Option, none, some, List, [], ◌∷◌, String, ◌==◌,
  if◌then◌else◌,
}
use blank.Prelude.Table.{All, select}
use blank.Prelude.Text.{contains}
use blank.Directory.Models.{Membership}
use blank.Directory.Service.{get_membership}
use blank.Tenancy.Models.{Tenant, active}
use blank.Tenancy.Guards.{
  TenantContext, Object, Statement, Filter, unchanged, only_tenant, guard_flush, current_tenant,
  stamp, stamp_new, is_foreign,
}
use blank.Tenancy.Guards.Isolation.{IsStamped, Row, guard_flush-IsStamped}
use blank.Tenancy.Resolve.{resolve_tenant, resolve_slug, tenant_by_slug}
use blank.Tenancy.Resolve.Laws.{resolve_tenant_sound}
use blank.Tenancy.Slug.{extract_slug, before, has, is_slug}
use blank.Tests.{db}

abbrev context : TenantContext
context = record { tenant_id = 1; slug = "acme"; role = some "owner" }

abbrev scoped_tables : List String
scoped_tables = "notes" ∷ []

abbrev passes : Filter → List String → Row → Bool
passes unchanged tables r = contains tables r.table
passes (only_tenant t) tables r =
    contains tables r.table && (if contains ("notes" ∷ []) r.table then r.tenant_id == t else true)

abbrev load : Statement → Filter → List Row → List Row
load stmt f rows = select (passes f stmt.tables) rows

abbrev query : Statement
query = record {
  is_select_update_or_delete = true;
  is_internal_load = false;
  mappers = "notes" ∷ [];
  tables = "notes" ∷ [];
}

abbrev stored : List Row
stored = record { table = "notes"; tenant_id = 1 } ∷ record { table = "notes"; tenant_id = 2 } ∷ []

abbrev note : Option ℕ → Object
note t = record { is_scoped = true; tenant_id = t }

guard_flush-IsStamped_example :
    All (IsStamped (some context)) (note (some 1) ∷ [])
    × All (IsStamped (some context)) (note (some 1) ∷ [])
unfolding guard_flush stamp_new stamp is_foreign current_tenant
guard_flush-IsStamped_example =
    guard_flush-IsStamped (some context) (note none ∷ []) (note (some 1) ∷ []) refl

abbrev same : String → String
same s = s

resolve_tenant_sound_example :
    (slug : String) × (tenant : Tenant) × (user : ℕ) × (m : Membership) × (extract_slug same same
        "acme.app.fr"
      ≡ some slug)
    × (tenant_by_slug slug (db true) ≡ some tenant)
    × (tenant.deleted_at ≡ none)
    × (tenant.state ≡ active)
    × (some 10 ≡ some user)
    × (get_membership tenant.id user (db true) ≡ some m)
    × (context ≡ record { tenant_id = tenant.id; slug = tenant.slug; role = some m.role })
    × ((resolve_tenant same same "acme.app.fr" (some 10) (db true)).1 ≡ db true)
unfolding resolve_tenant resolve_slug tenant_by_slug extract_slug before has get_membership is_slug
resolve_tenant_sound_example = resolve_tenant_sound same same "acme.app.fr" (some 10) (db true) refl
