-- ===== src/Automation/Activation/Cache.antt =====
-- apps/api/app/automation/service.py: lemmas on the cache and the table of modules.
use blank.Prelude.{
  ℕ, ◌≡◌, refl, inl, inr, Bool, true, not, ◌&&◌, Option, none, some, List, [], ◌∷◌, String, str_eq,
  eq_iff, arith, ◌==◌, Option-cases,
}
use blank.Prelude.Text.{str_eq_refl}
use blank.Prelude.Table.{find, update_where}
use blank.Automation.Activation.{
  TenantModule, CacheEntry, ModuleState, is_row, is_entry, invalidate, enable_row, row_enabled,
}

-- What the table says.
abbrev pub is_on : ℕ → String → ModuleState → Bool
is_on tenant_id name s = row_enabled (find (is_row tenant_id name) s.rows)

-- An entry of the cache, dead or alive, says what the table says.
abbrev pub entry_or : Option CacheEntry → Bool → Bool
entry_or none on = on
entry_or (some entry) on = entry.enabled

abbrev pub Agrees : ℕ → String → ModuleState → Type 0
Agrees tenant_id name s =
    entry_or (find (is_entry tenant_id name) s.cache) (is_on tenant_id name s)
    ≡ is_on tenant_id name s

pub find-invalidate_self :
    (t : ℕ) (m : String) (cache : List CacheEntry)
    → find (is_entry t m) (invalidate t m cache) ≡ none
unfolding invalidate
find-invalidate_self t m [] = refl
find-invalidate_self t m (e ∷ cache) = ground (arith, find-invalidate_self t m cache)

-- Another key.
abbrev pub is_other : ℕ → String → ℕ → String → Bool
is_other t m u n = not ((t == u) && str_eq m n)

pub find-invalidate_other :
    (t : ℕ) (m : String) (u : ℕ) (n : String) (cache : List CacheEntry)
    → is_other t m u n ≡ true
    → find (is_entry t m) (invalidate u n cache) ≡ find (is_entry t m) cache
unfolding invalidate
find-invalidate_other t m u n [] other = refl
find-invalidate_other t m u n (e ∷ cache) other = ground (
  arith,
  find-invalidate_other t m u n cache other,
  eq_iff e.module_name m,
  eq_iff e.module_name n,
  eq_iff m n,
)

pub find-update_other :
    (t : ℕ) (m : String) (u : ℕ) (n : String) (b : Bool) (rows : List TenantModule)
    → is_other t m u n ≡ true
    → find (is_row t m) (update_where (is_row u n) (λ r. record r { enabled = b }) rows)
      ≡ find (is_row t m) rows
find-update_other t m u n b [] other = refl
find-update_other t m u n b (r ∷ rows) other = ground (
  arith,
  find-update_other t m u n b rows other,
  eq_iff r.module_name m,
  eq_iff r.module_name n,
  eq_iff m n,
)

pub row_enabled-update :
    (t : ℕ) (m : String) (b : Bool) (rows : List TenantModule) {row : TenantModule}
    → find (is_row t m) rows ≡ some row
    → row_enabled
        (find (is_row t m) (update_where (is_row t m) (λ r. record r { enabled = b }) rows))
      ≡ b
unfolding row_enabled
row_enabled-update t m b [] found = cc
row_enabled-update t m b (r ∷ rows) {row} found =
    ground (arith, row_enabled-update t m b rows {row = row})

pub row_enabled-enable_row :
    (t : ℕ) (m : String) (rows : List TenantModule)
    → row_enabled (find (is_row t m) (enable_row (find (is_row t m) rows) t m rows)) ≡ true
unfolding enable_row row_enabled
row_enabled-enable_row t m rows = elim (Option-cases (find (is_row t m) rows)) [
  | inl fresh ↦ rw fresh (ground (arith, str_eq_refl m))
  | inr (row, found) ↦ rw found (row_enabled-update t m true rows found)
]

pub find-enable_row_other :
    (t : ℕ) (m : String) (u : ℕ) (n : String) (old : Option TenantModule) (rows : List TenantModule)
    → is_other t m u n ≡ true
    → find (is_row t m) (enable_row old u n rows) ≡ find (is_row t m) rows
unfolding enable_row
find-enable_row_other t m u n none rows other = ground (arith, eq_iff n m, eq_iff m n)
find-enable_row_other t m u n (some row) rows other = find-update_other t m u n true rows other
