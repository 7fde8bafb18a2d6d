-- ===== src/Auth/Permissions.antt =====
-- apps/api/app/auth/permissions.py: the registry of module permissions, and the check of a role
-- against a permission.
pub mod Names
pub mod Grants
use blank.Prelude.{
  ℕ, Bool, true, false, not, ◌&&◌, ◌||◌, Option, none, some, List, [], ◌∷◌, String, str_eq,
  if◌then◌else◌, is_none, Exec, pure, raise, gets, modify, raise_if, ◌>>=◌, ◌>>◌,
}
use blank.Prelude.Text.{codes, contains, lookup}
use blank.Auth.Permissions.Names.{
  role_permissions, role_member, role_admin, role_owner, permissions, is_core, is_module_permission,
}

-- The `ValueError`s, by message.
pub data PermissionError : Type 0 where
  invalid_permission unknown_role unknown_permission : PermissionError

-- `_module_permissions` and `_module_role_grants`.
pub record Registry : Type 0 where
  pub known : List String
  pub grants : List (String × List String)

abbrev pub empty_registry : Registry
empty_registry = record {
  known = [];
  grants = (role_member, []) ∷ (role_admin, []) ∷ (role_owner, []) ∷ [];
}

-- `grants[role].add(name)`
unfoldable pub add_grant :
    String → String → List (String × List String) → List (String × List String)
add_grant role name [] = []
add_grant role name ((r, names) ∷ g) =
    if str_eq r role then (r, name ∷ names) ∷ g else (r, names) ∷ add_grant role name g

unfoldable pub grant_each : String → List String → Exec Registry PermissionError (Unit {0})
unfolding add_grant
grant_each name [] = pure tt
grant_each name (role ∷ roles) = do
  raise_if (← gets (λ r. is_none (lookup role r.grants))) unknown_role
  modify (λ r. record r { grants = add_grant role name r.grants })
  grant_each name roles

-- A role that the registry does not know is found after the name is recorded.
unfoldable pub register_module_permission :
    String → List String → Exec Registry PermissionError (Unit {0})
unfolding grant_each
register_module_permission name roles = do
  raise_if (not (is_module_permission name)) invalid_permission
  modify (λ r. record r { known = name ∷ r.known })
  grant_each name roles

clear_grants : List (String × List String) → List (String × List String)
clear_grants [] = []
clear_grants ((r, _) ∷ g) = (r, []) ∷ clear_grants g

pub reset_module_permissions : Registry → Registry
unfolding clear_grants
reset_module_permissions r = record { known = []; grants = clear_grants r.grants }

-- `permission in grants.get(role, set())`
abbrev pub grants_permission : String → String → List (String × List String) → Bool
grants_permission role permission table = elim (lookup role table) [
  | none ↦ false
  | some names ↦ contains names permission
]

pub role_has_permission : Registry → String → String → Bool
role_has_permission r role permission =
    if grants_permission role permission role_permissions
    then true
    else grants_permission role permission r.grants

is_known_permission : Registry → String → Bool
is_known_permission r permission = contains permissions permission || contains r.known permission

-- What the dependency of a route answers.
pub data Answer (A : Type 0) : Type 0 where
  pass : A → Answer A
  http_error : ℕ → Answer A

-- The checks that `require_permission` makes when the route is declared.
is_declarable : String → Bool
is_declarable permission =
    if is_core (codes permission)
    then contains permissions permission
    else is_module_permission permission

-- The dependency that `require_permission(permission)` returns, at the role of the context.
check_permission : {A : Type 0} → Registry → String → Option String → A → Answer A
unfolding role_has_permission
check_permission r permission none ctx = http_error 403
check_permission r permission (some role) ctx =
    if role_has_permission r role permission then pass ctx else http_error 403
