-- ===== src/Auth/Permissions/Grants.antt =====
-- apps/api/app/auth/permissions.py: lemmas on the registration of module permissions.
use blank.Prelude.{
  ◌≡◌, refl, Bool, true, false, not, ◌||◌, List, [], ◌∷◌, String, str_eq, eq_iff, arith, is_none,
  Bool-cases, inl, inr, ok,
}
use blank.Prelude.Text.{contains, lookup}
use blank.Prelude.Table.{all}
use blank.Auth.Permissions.Names.{
  role_member, role_admin, role_owner, permissions, is_module_permission,
}
use blank.Auth.Permissions.{
  Registry, empty_registry, add_grant, grant_each, register_module_permission, grants_permission,
  role_has_permission,
}

-- No permission of the core registry has the format of a module's.
permissions-IsCore : all (λ p. not (is_module_permission p)) permissions ≡ true
unfolding is_module_permission
permissions-IsCore = refl

all_sound :
    (p : String → Bool) (ss : List String) (t : String)
    → all p ss ≡ true
    → contains ss t ≡ true
    → p t ≡ true
all_sound p [] t a c = cc
all_sound p (s ∷ ss) t a c = ground (arith, eq_iff s t, all_sound p ss t)

core-ne-module :
    (p name : String)
    → contains permissions p ≡ true
    → is_module_permission name ≡ true
    → str_eq name p ≡ false
core-ne-module p name core valid =
    let off = all_sound (λ q. not (is_module_permission q)) permissions p permissions-IsCore core in
    ground (arith, eq_iff name p)

grants-add_grant :
    (role other name p : String) (g : List (String × List String))
    → str_eq name p ≡ false
    → grants_permission other p (add_grant role name g) ≡ grants_permission other p g
unfolding add_grant
grants-add_grant role other name p [] ne = refl
grants-add_grant role other name p ((r, names) ∷ g) ne =
    ground (arith, grants-add_grant role other name p g ne)

grants-grant_each :
    (name other p : String) (roles : List String) (r : Registry)
    → str_eq name p ≡ false
    → grants_permission other p (grant_each name roles r).1.grants
      ≡ grants_permission other p r.grants
unfolding grant_each
grants-grant_each name other p [] r ne = refl
grants-grant_each name other p (role ∷ roles) r ne =
    let r' : Registry = record r { grants = add_grant role name r.grants } in
    ground (
      arith,
      grants-grant_each name other p roles r' ne,
      grants-add_grant role other name p r.grants ne,
    )

-- Whatever a module registers, and whether or not the registration raises, every role has exactly
-- the permissions of the core registry that it had before.
pub register_module_permission-keeps_core :
    (r : Registry) (name : String) (given : List String) (role p : String)
    → contains permissions p ≡ true
    → role_has_permission (register_module_permission name given r).1 role p
      ≡ role_has_permission r role p
unfolding register_module_permission role_has_permission
register_module_permission-keeps_core r name given role p core =
    elim (Bool-cases (is_module_permission name)) [
      | inl valid ↦
          let r' : Registry = record r { known = name ∷ r.known } in
          ground (arith, core-ne-module p name core valid, grants-grant_each name role p given r')
      | inr invalid ↦ ground arith
    ]

grants-add_grant_self :
    (role name : String) (g : List (String × List String))
    → is_none (lookup role g) ≡ false
    → grants_permission role name (add_grant role name g) ≡ true
unfolding add_grant
grants-add_grant_self role name [] h = cc
grants-add_grant_self role name ((r, names) ∷ g) h =
    ground (arith, eq_iff name name, grants-add_grant_self role name g)

grants-add_grant_mono :
    (role other name p : String) (g : List (String × List String))
    → grants_permission other p g ≡ true
    → grants_permission other p (add_grant role name g) ≡ true
unfolding add_grant
grants-add_grant_mono role other name p [] h = h
grants-add_grant_mono role other name p ((r, names) ∷ g) h =
    ground (arith, grants-add_grant_mono role other name p g)

grants-grant_each_mono :
    (name other p : String) (roles : List String) (r : Registry)
    → grants_permission other p r.grants ≡ true
    → grants_permission other p (grant_each name roles r).1.grants ≡ true
unfolding grant_each
grants-grant_each_mono name other p [] r h = h
grants-grant_each_mono name other p (role ∷ roles) r h =
    let r' : Registry = record r { grants = add_grant role name r.grants } in
    ground (
      arith,
      grants-grant_each_mono name other p roles r',
      grants-add_grant_mono role other name p r.grants,
    )

grants-grant_each_self :
    (name role : String) (given : List String) (r : Registry)
    → (grant_each name given r).0 ≡ ok tt
    → contains given role ≡ true
    → grants_permission role name (grant_each name given r).1.grants ≡ true
unfolding grant_each
grants-grant_each_self name role [] r done c = cc
grants-grant_each_self name role (first ∷ given) r done c =
    let r' : Registry = record r { grants = add_grant first name r.grants } in
    ground (
      arith,
      eq_iff first role,
      grants-grant_each_self name role given r',
      grants-grant_each_mono name role name given r',
      grants-add_grant_self first name r.grants,
    )

-- A registration that returns has given the permission to every role that the module lists.
pub register_module_permission-grants :
    (r : Registry) (name : String) (given : List String) (role : String)
    → (register_module_permission name given r).0 ≡ ok tt
    → contains given role ≡ true
    → role_has_permission (register_module_permission name given r).1 role name ≡ true
unfolding register_module_permission role_has_permission
register_module_permission-grants r name given role done c =
    let r' : Registry = record r { known = name ∷ r.known } in
    ground (arith, grants-grant_each_self name role given r')

-- In a registry with no grants of modules, an admin has every permission that a member has, and an
-- owner the same permissions as an admin.
pub core_roles_ordered :
    (p : String)
    → ((not (role_has_permission empty_registry role_member p)
          || role_has_permission empty_registry role_admin p)
        ≡ true)
      × (role_has_permission empty_registry role_admin p
          ≡ role_has_permission empty_registry role_owner p)
unfolding role_has_permission
core_roles_ordered p = ground arith
