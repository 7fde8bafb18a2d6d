-- ===== src/Tenancy/Resolve/Laws.antt =====
-- apps/api/app/tenancy/deps.py and provisioning.py: lemmas on resolution and provisioning.
use blank.Prelude.{
  ℕ, ◌≤◌, ◌≡◌, inl, inr, Option, none, some, String, str_eq, arith, is_none, Option-cases,
  Result-cases, ok, err,
}
use blank.Prelude.Text.{str_eq_refl}
use blank.Prelude.Table.{count, select, find-select}
use blank.Core.Db.{Db}
use blank.Directory.Models.{Membership}
use blank.Directory.Service.{get_membership}
use blank.Tenancy.Models.{Tenant, active}
use blank.Tenancy.Guards.{TenantContext}
use blank.Tenancy.Slug.{extract_slug, validate_slug}
use blank.Tenancy.Resolve.{
  slug_taken, tenant_by_slug, resolve_slug, resolve_tenant, provision_tenant,
}

-- A context is resolved only for the tenant of the host's slug, neither deleted nor suspended, and
-- for a signed-in member of it, with the role of the membership; resolving writes nothing.
pub resolve_tenant_sound :
    (strip lower : String → String) (host : String) (user_id : Option ℕ) (db : Db)
    {ctx : TenantContext}
    → (resolve_tenant strip lower host user_id db).0 ≡ ok ctx
    → (slug : String) × (tenant : Tenant) × (user : ℕ) × (m : Membership) × (extract_slug strip
          lower host
        ≡ some slug)
      × (tenant_by_slug slug db ≡ some tenant)
      × (tenant.deleted_at ≡ none)
      × (tenant.state ≡ active)
      × (user_id ≡ some user)
      × (get_membership tenant.id user db ≡ some m)
      × (ctx ≡ record { tenant_id = tenant.id; slug = tenant.slug; role = some m.role })
      × ((resolve_tenant strip lower host user_id db).1 ≡ db)
unfolding resolve_tenant resolve_slug
resolve_tenant_sound strip lower host user_id db {ctx} e =
    elim (Option-cases (extract_slug strip lower host)) [
      | inl no_slug ↦ absurd (ground arith)
      | inr (slug, named) ↦ elim (Option-cases (tenant_by_slug slug db)) [
        | inl unknown ↦ absurd (ground arith)
        | inr (tenant, listed) ↦ elim (Option-cases user_id) [
          | inl anonymous ↦ absurd (ground arith)
          | inr (user, signed_in) ↦ elim (Option-cases (get_membership tenant.id user db)) [
            | inl stranger ↦ absurd (ground arith)
            | inr (m, member) ↦ (
              slug,
              tenant,
              user,
              m,
              named,
              listed,
              ground arith,
              ground arith,
              signed_in,
              member,
              ground arith,
              ground arith,
            )
          ]
        ]
      ]
    ]

-- The database without the tenants that were deleted.
abbrev pub without_deleted : Db → Db
without_deleted db = record db { tenants = select (λ t. is_none t.deleted_at) db.tenants }

-- A deleted tenant cannot be told from one that does not exist: each request is answered as if the
-- deleted tenants were not in the catalogue, in which slugs are unique.
pub resolve_tenant-deleted :
    (strip lower : String → String) (host : String) (user_id : Option ℕ) (db : Db)
    → ((slug : String) → count (λ t. str_eq t.slug slug) db.tenants ≤ 1)
    → (resolve_tenant strip lower host user_id (without_deleted db)).0
      ≡ (resolve_tenant strip lower host user_id db).0
unfolding resolve_tenant resolve_slug tenant_by_slug get_membership
resolve_tenant-deleted strip lower host user_id db unique =
    elim (Option-cases (extract_slug strip lower host)) [
      | inl no_slug ↦ ground arith
      | inr (slug, named) ↦
          let found =
            find-select (λ t. str_eq t.slug slug) (λ t. is_none t.deleted_at) db.tenants
              (unique slug) in
          ground (arith, found)
    ]

-- A tenant that was provisioned is found by its slug, and a second one with the slug is refused.
pub provision_tenant_once :
    (id other : ℕ) (slug name other_name : String) (db : Db) {tenant : Tenant}
    → (provision_tenant id slug name db).0 ≡ ok tenant
    → (tenant_by_slug slug (provision_tenant id slug name db).1 ≡ some tenant)
      × (provision_tenant other slug other_name (provision_tenant id slug name db).1
          ≡ (err slug_taken, (provision_tenant id slug name db).1))
unfolding provision_tenant tenant_by_slug
provision_tenant_once id other slug name other_name db {tenant} e =
    let same = str_eq_refl slug in
    elim (Result-cases (validate_slug slug)) [
      | inr (bad, refused) ↦ absurd (ground arith)
      | inl (valid, good) ↦ (ground (arith, same), ground (arith, same))
    ]
