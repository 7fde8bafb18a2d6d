-- ===== src/Tenancy/Resolve.antt =====
-- apps/api/app/tenancy/deps.py and provisioning.py: the tenant of a request, and the creation of a
-- tenant. The session of the user is resolved before; a tenant that is created has an audit event
-- in the same transaction, which is left out.
pub mod Laws
use blank.Prelude.{
  ℕ, Bool, true, false, not, Option, none, some, List, ◌∷◌, String, str_eq, ◌==◌, if◌then◌else◌,
  is_some, is_none, Result, ok, err, Exec, pure, raise, gets, modify, or_raise, raise_if, lift,
  map_err, ◌>>=◌, ◌>>◌,
}
use blank.Prelude.Table.{find}
use blank.Core.Db.{Db}
use blank.Directory.Models.{Membership}
use blank.Directory.Service.{get_membership}
use blank.Tenancy.Models.{Tenant, TenantState, active, suspended}
use blank.Tenancy.Guards.{TenantContext}
use blank.Tenancy.Slug.{SlugError, extract_slug, validate_slug}

-- `HTTPException`, by its status code.
pub data ResolveError : Type 0 where
  http_error : ℕ → ResolveError

abbrev pub is_suspended : TenantState → Bool
is_suspended active = false
is_suspended suspended = true

unfoldable pub tenant_by_slug : String → Db → Option Tenant
tenant_by_slug slug db = find (λ t. str_eq t.slug slug) db.tenants

-- From the slug on: the order of the refusals is the code's.
unfoldable pub resolve_slug : String → Option ℕ → Exec Db ResolveError TenantContext
resolve_slug slug user_id = do
  tenant ← or_raise (← gets (tenant_by_slug slug)) (http_error 404)
  raise_if (is_some tenant.deleted_at) (http_error 404)
  raise_if (is_suspended tenant.state) (http_error 403)
  user ← or_raise user_id (http_error 401)
  membership ← gets (get_membership tenant.id user)
  m ← or_raise membership (http_error 403)
  pure (record { tenant_id = tenant.id; slug = tenant.slug; role = some m.role })

-- `resolve_tenant`, for the Host header and the user of the session.
unfoldable pub resolve_tenant :
    (strip lower : String → String) (host : String) → Option ℕ → Exec Db ResolveError TenantContext
unfolding resolve_slug
resolve_tenant strip lower host user_id = do
  slug ← or_raise (extract_slug strip lower host) (http_error 404)
  resolve_slug slug user_id

-- `ProvisioningError` and the `ValueError` of the slug.
pub data ProvisioningError : Type 0 where
  slug_error : SlugError → ProvisioningError
  slug_taken : ProvisioningError

unfoldable pub provision_tenant : (id : ℕ) (slug name : String) → Exec Db ProvisioningError Tenant
provision_tenant id slug name = do
  valid ← lift (map_err slug_error (validate_slug slug))
  raise_if (is_some (← gets (tenant_by_slug slug))) slug_taken
  let tenant : Tenant = record {
    id = id;
    slug = slug;
    name = name;
    state = active;
    deleted_at = none;
  }
  modify (λ db. record db { tenants = tenant ∷ db.tenants })
  pure tenant
