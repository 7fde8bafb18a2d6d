-- ===== src/Tenancy/Guards.antt =====
-- apps/api/app/tenancy/context.py and tenant_base.py: the tenant of the context, and the two
-- listeners on every session that filter queries and stamp writes. A mapped class is named by its
-- table. How SQLAlchemy runs a statement is a parameter, with what it documents as hypotheses.
pub mod Isolation
use blank.Prelude.{
  ℕ, ◌≡◌, refl, ◌⊎◌, inl, inr, Bool, true, false, not, ◌&&◌, ◌||◌, Option, none, some, List, [],
  ◌∷◌, String, str_eq, eq_iff, arith, ◌==◌, if◌then◌else◌, Bool-cases, Option-cases, Result, ok,
  err,
}
use blank.Prelude.Table.{any, All, select}
use blank.Prelude.Text.{contains}

pub record TenantContext : Type 0 where
  pub tenant_id : ℕ
  pub slug : String
  pub role : Option String

-- `TenantContextError`, by where it is raised.
pub data ContextError : Type 0 where
  no_context unscoped_access foreign_insert foreign_write : ContextError

unfoldable pub current_tenant : Option TenantContext → Result ContextError TenantContext
current_tenant none = err no_context
current_tenant (some ctx) = ok ctx

-- What the listener reads of a statement: its kind, the mapped classes that it names, and the
-- tables that `find_tables` sees in it.
pub record Statement : Type 0 where
  pub is_select_update_or_delete : Bool
  pub is_internal_load : Bool
  pub mappers : List String
  pub tables : List String

-- A statement runs as it stands, or with the criterion on the tenant.
pub data Filter : Type 0 where
  unchanged : Filter
  only_tenant : ℕ → Filter

abbrev criterion : Result ContextError TenantContext → Result ContextError Filter
criterion (ok ctx) = ok (only_tenant ctx.tenant_id)
criterion (err e) = err e

module _ (scoped : List String) where
  unfoldable pub guard_orm_execute : Option TenantContext → Statement → Result ContextError Filter
  unfolding current_tenant
  guard_orm_execute context stmt =
      if not stmt.is_select_update_or_delete
      then ok unchanged
      else (if stmt.is_internal_load
          then ok unchanged
          else (if not (any (contains scoped) stmt.mappers)
              then (if any (contains scoped) stmt.tables then err unscoped_access else ok unchanged)
              else criterion (current_tenant context)))

-- An object of the session: whether its class is scoped, and its tenant, if it is set.
pub record Object : Type 0 where
  pub is_scoped : Bool
  pub tenant_id : Option ℕ

unfoldable pub stamp : ℕ → Object → Result ContextError Object
stamp tenant_id o = elim o.tenant_id [
  | none ↦ ok (record o { tenant_id = some tenant_id })
  | some t ↦ if t == tenant_id then ok o else err foreign_insert
]

-- The objects to insert, with their tenants set.
unfoldable pub stamp_new : ℕ → List Object → Result ContextError (List Object)
unfolding stamp
stamp_new tenant_id [] = ok []
stamp_new tenant_id (o ∷ os) =
    let rest = stamp_new tenant_id os in
    if not o.is_scoped
    then elim rest [ ok done ↦ ok (o ∷ done) | err e ↦ err e ]
    else elim (stamp tenant_id o) [
      | err e ↦ err e
      | ok first ↦ elim rest [ ok done ↦ ok (first ∷ done) | err e ↦ err e ]
    ]

-- `obj.tenant_id != ctx.tenant_id`
unfoldable pub is_foreign : ℕ → Object → Bool
is_foreign tenant_id o =
    o.is_scoped && (elim o.tenant_id [ none ↦ true | some t ↦ not (t == tenant_id) ])

abbrev checked : Bool → Result ContextError (List Object) → Result ContextError (List Object)
checked foreign (err e) = err e
checked foreign (ok new_objects) = if foreign then err foreign_write else ok new_objects

-- `_guard_flush`, on the new objects and on those that were changed or deleted; its result is what
-- is inserted.
unfoldable pub guard_flush :
    Option TenantContext → List Object → List Object → Result ContextError (List Object)
unfolding current_tenant
guard_flush context new_objects touched =
    if not (any (λ o. o.is_scoped) new_objects) && not (any (λ o. o.is_scoped) touched)
    then ok new_objects
    else elim (current_tenant context) [
      | err e ↦ err e
      | ok ctx ↦
          checked (any (is_foreign ctx.tenant_id) touched) (stamp_new ctx.tenant_id new_objects)
    ]
