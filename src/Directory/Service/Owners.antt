-- ===== src/Directory/Service/Owners.antt =====
-- apps/api/app/directory/service.py: lemmas on the number of owners of a tenant.
use blank.Prelude.{
  ℕ, ◌+◌, ◌≤◌, ◌≡◌, ◌≢◌, inl, inr, Bool, ◌&&◌, some, String, str_eq, eq_iff, arith, ◌==◌,
  if◌then◌else◌, Option-cases,
}
use blank.Prelude.Table.{Unique, find-holds, count-delete, count-update}
use blank.Core.Db.{Db}
use blank.Auth.Permissions.Names.{role_owner}
use blank.Directory.Models.{Membership}
use blank.Directory.Service.{
  count_owners, get_membership, demotes_last_owner, set_role, change_member_role, drop_member,
  remove_member,
}

-- The primary key of `memberships`.
abbrev pub HasKeys : Db → Type 0
HasKeys db = Unique (λ m. m.id) db.memberships

is_owner_of : ℕ → Membership → Bool
is_owner_of t m = m.tenant_id == t && str_eq m.role role_owner

get_membership-tenant :
    (tenant_id user_id : ℕ) (db : Db) {m : Membership}
    → get_membership tenant_id user_id db ≡ some m
    → m.tenant_id ≡ tenant_id
unfolding get_membership
get_membership-tenant tenant_id user_id db {m} e =
    let h = find-holds (λ m. m.user_id == user_id && m.tenant_id == tenant_id) db.memberships e in
    ground arith

module _ (tenant_id user_id t : ℕ) (db : Db) {m : Membership} (keys : HasKeys db)
    (e : get_membership tenant_id user_id db ≡ some m) where
  count_owners-drop_member :
      count_owners t (drop_member m db) + (if is_owner_of t m then 1 else 0) ≡ count_owners t db
  unfolding count_owners drop_member is_owner_of get_membership
  count_owners-drop_member =
      count-delete (λ m. m.id) (λ m. m.user_id == user_id && m.tenant_id == tenant_id)
        (is_owner_of t) db.memberships keys e

  count_owners-set_role :
      (new_role : String)
      → count_owners t (set_role new_role m db) + (if is_owner_of t m then 1 else 0)
        ≡ count_owners t db + (if is_owner_of t (record m { role = new_role }) then 1 else 0)
  unfolding count_owners set_role is_owner_of get_membership
  count_owners-set_role new_role =
      count-update (λ m. m.id) (λ m. m.user_id == user_id && m.tenant_id == tenant_id)
        (is_owner_of t) (λ row. record row { role = new_role }) db.memberships keys e

-- Where memberships have unique keys, removing a member leaves an owner in every tenant that had
-- one, whoever asks and whatever the answer.
pub remove_member-keeps_owner :
    (tenant_id user_id : ℕ) (actor_role : String) (db : Db) (t : ℕ)
    → HasKeys db
    → 1 ≤ count_owners t db
    → 1 ≤ count_owners t (remove_member tenant_id user_id actor_role db).1
unfolding remove_member is_owner_of
remove_member-keeps_owner tenant_id user_id actor_role db t keys some_owner =
    elim (Option-cases (get_membership tenant_id user_id db)) [
      | inl absent ↦ ground arith
      | inr (m, e) ↦ ground (
        arith,
        get_membership-tenant tenant_id user_id db e,
        count_owners-drop_member tenant_id user_id t db keys e,
      )
    ]

-- Where memberships have unique keys, changing a role leaves an owner in every tenant that had one,
-- whoever asks and whatever the answer.
pub change_member_role-keeps_owner :
    (tenant_id user_id : ℕ) (new_role actor_role : String) (db : Db) (t : ℕ)
    → HasKeys db
    → 1 ≤ count_owners t db
    → 1 ≤ count_owners t (change_member_role tenant_id user_id new_role actor_role db).1
unfolding change_member_role demotes_last_owner is_owner_of
change_member_role-keeps_owner tenant_id user_id new_role actor_role db t keys some_owner =
    elim (Option-cases (get_membership tenant_id user_id db)) [
      | inl absent ↦ ground arith
      | inr (m, e) ↦ ground (
        arith,
        get_membership-tenant tenant_id user_id db e,
        count_owners-set_role tenant_id user_id t db keys e new_role,
      )
    ]

-- Where memberships have unique keys, an actor who is not an owner leaves the number of owners of
-- every tenant as it was, by a removal and by a change of role.
pub lesser_actor-keeps_owners :
    (tenant_id user_id : ℕ) (new_role actor_role : String) (db : Db) (t : ℕ)
    → HasKeys db
    → actor_role ≢ role_owner
    → (count_owners t (remove_member tenant_id user_id actor_role db).1 ≡ count_owners t db)
      × (count_owners t (change_member_role tenant_id user_id new_role actor_role db).1
          ≡ count_owners t db)
unfolding remove_member change_member_role demotes_last_owner is_owner_of
lesser_actor-keeps_owners tenant_id user_id new_role actor_role db t keys lesser =
    elim (Option-cases (get_membership tenant_id user_id db)) [
      | inl absent ↦ ground arith
      | inr (m, e) ↦ ground (
        arith,
        eq_iff actor_role role_owner,
        count_owners-drop_member tenant_id user_id t db keys e,
        count_owners-set_role tenant_id user_id t db keys e new_role,
      )
    ]
