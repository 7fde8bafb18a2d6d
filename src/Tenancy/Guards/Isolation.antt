-- ===== src/Tenancy/Guards/Isolation.antt =====
-- apps/api/app/tenancy/tenant_base.py: the rows that a guarded session reads and writes.
use blank.Prelude.{
  ℕ, ◌≡◌, refl, ◌⊎◌, inl, inr, true, false, not, ◌&&◌, Option, some, List, [], ◌∷◌, String, arith,
  Bool-cases, Option-cases, Result-cases, ok,
}
use blank.Prelude.Table.{any, All}
use blank.Prelude.Text.{contains}
use blank.Tenancy.Guards.{
  TenantContext, Statement, Filter, only_tenant, Object, stamp, stamp_new, is_foreign, guard_flush,
}

-- A row of the database: its table and its tenant.
pub record Row : Type 0 where
  pub table : String
  pub tenant_id : ℕ

-- How SQLAlchemy runs a statement under a filter.
abbrev pub Loader : Type 0
Loader = Statement → Filter → List Row → List Row

-- Documented: a statement reads rows of the tables that stand in it, and a criterion on the scoped
-- classes holds of the rows that it reads by such a class. A scoped table that stands in the statement
-- without its class is not filtered.
pub record IsLoader (scoped : List String) (load : Loader) : Type 0 where
  pub criterion_holds :
      (stmt : Statement) (t : ℕ) (rows : List Row)
      → All
          (λ r.
            contains scoped r.table ≡ true → contains stmt.mappers r.table ≡ true → r.tenant_id ≡ t)
          (load stmt (only_tenant t) rows)
  pub reads_its_tables :
      (stmt : Statement) (f : Filter) (rows : List Row)
      → All (λ r. contains stmt.tables r.table ≡ true) (load stmt f rows)

-- A row is of no scoped table, or of the tenant of the context.
abbrev pub IsOwn : List String → Option TenantContext → Row → Type 0
IsOwn scoped context r =
    (contains scoped r.table ≡ false)
    ⊎ ((ctx : TenantContext) × (context ≡ some ctx) × (r.tenant_id ≡ ctx.tenant_id))

-- Every scoped table of the statement stands there by its class.
abbrev pub NamesItsClasses : List String → Statement → Type 0
NamesItsClasses scoped stmt =
    (table : String)
    → contains stmt.tables table ≡ true
    → contains scoped table ≡ true
    → contains stmt.mappers table ≡ true

-- An object is not scoped, or its tenant is the context's.
abbrev pub IsStamped : Option TenantContext → Object → Type 0
IsStamped context o =
    (o.is_scoped ≡ false)
    ⊎ ((ctx : TenantContext) × (context ≡ some ctx) × (o.tenant_id ≡ some ctx.tenant_id))

stamp_sound :
    (t : ℕ) (o : Object) {stamped : Object} → stamp t o ≡ ok stamped → stamped.tenant_id ≡ some t
unfolding stamp
stamp_sound t o {stamped} e = ground arith

stamp_new-IsStamped :
    (ctx : TenantContext) (objects : List Object) {out : List Object}
    → stamp_new ctx.tenant_id objects ≡ ok out
    → All (IsStamped (some ctx)) out
unfolding stamp_new
stamp_new-IsStamped ctx [] {out} e = let done : out ≡ [] = ground arith in rw done tt
stamp_new-IsStamped ctx (o ∷ objects) {out} e =
    elim (Result-cases (stamp_new ctx.tenant_id objects)) [
      | inr (bad, failed) ↦ absurd (ground arith)
      | inl (rest, done) ↦
          let tail = stamp_new-IsStamped ctx objects {out = rest} done in
          elim (Bool-cases o.is_scoped) [
            | inr plain ↦ let here : out ≡ o ∷ rest = ground arith in rw here (inl plain, tail)
            | inl scoped ↦ elim (Result-cases (stamp ctx.tenant_id o)) [
              | inr (bad, refused) ↦ absurd (ground arith)
              | inl (first, stamped) ↦
                  let here : out ≡ first ∷ rest = ground arith in
                  rw here (inr (ctx, refl, stamp_sound ctx.tenant_id o stamped), tail)
            ]
          ]
    ]

unstamped :
    (context : Option TenantContext) (objects : List Object)
    → any (λ o. o.is_scoped) objects ≡ false
    → All (IsStamped context) objects
unstamped context [] h = tt
unstamped context (o ∷ objects) h = (inl (ground arith), unstamped context objects (ground arith))

own_objects :
    (ctx : TenantContext) (objects : List Object)
    → any (is_foreign ctx.tenant_id) objects ≡ false
    → All (IsStamped (some ctx)) objects
unfolding is_foreign
own_objects ctx [] h = tt
own_objects ctx (o ∷ objects) h =
    let rest = own_objects ctx objects (ground arith) in
    elim (Bool-cases o.is_scoped) [
      | inr plain ↦ (inl plain, rest)
      | inl scoped ↦ elim (Option-cases o.tenant_id) [
        | inl unset ↦ absurd (ground arith)
        | inr (t, set) ↦ (inr (ctx, refl, ground arith), rest)
      ]
    ]

-- A flush that the guard lets through inserts, changes and deletes scoped objects of the current
-- tenant alone, and none where no tenant is resolved.
pub guard_flush-IsStamped :
    (context : Option TenantContext) (new_objects touched : List Object) {out : List Object}
    → guard_flush context new_objects touched ≡ ok out
    → All (IsStamped context) out × All (IsStamped context) touched
unfolding guard_flush
guard_flush-IsStamped context new_objects touched {out} e =
    elim (Bool-cases
      (not (any (λ o. o.is_scoped) new_objects) && not (any (λ o. o.is_scoped) touched))) [
        | inl plain ↦
            let same : out ≡ new_objects = ground arith in
            (
              rw same (unstamped context new_objects (ground arith)),
              unstamped context touched (ground arith),
            )
        | inr mixed ↦ elim (Option-cases context) [
          | inl unresolved ↦ absurd (ground arith)
          | inr (ctx, resolved) ↦ elim (Result-cases (stamp_new ctx.tenant_id new_objects)) [
            | inr (bad, failed) ↦ absurd (ground arith)
            | inl (made, done) ↦
                let same : out ≡ made = ground arith in
                rw (resolved, same)
                  (stamp_new-IsStamped ctx new_objects done, own_objects ctx touched (ground arith))
          ]
        ]
      ]
