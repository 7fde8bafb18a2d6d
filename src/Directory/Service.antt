-- ===== src/Directory/Service.antt =====
-- apps/api/app/directory/service.py: invitations, and the rules on roles. A function runs on the
-- session's view of the database and may raise; the clock, the new token and the new row keys are
-- arguments, and one call reads the clock once.
pub mod Owners
pub mod Invitations
use blank.Prelude.{
  ℕ, ◌+◌, Bool, true, false, not, ◌&&◌, ◌||◌, Option, none, some, ◌∷◌, String, str_eq, ltb, leb,
  ◌==◌, if◌then◌else◌, is_some, is_none, Exec, pure, raise, gets, or_raise, raise_if, modify, ◌>>=◌,
  ◌>>◌,
}
use blank.Prelude.Table.{find, count, get, update, delete}
use blank.Prelude.Text.{contains}
use blank.Core.Config.{Env, hours}
use blank.Core.Db.{Db}
use blank.Auth.Models.{Invitation}
use blank.Auth.Permissions.Names.{role_owner, roles}
use blank.Auth.Users.{get_user_by_email, set_password}
use blank.Directory.Models.{User, Membership}

-- `DirectoryError`, by message, and the `ValueError` of `validate_role`.
pub data Refusal : Type 0 where
  invalid_role owner_invited_by_other already_member invitation_pending : Refusal
  invitation_not_found invitation_already_accepted invitation_invalid account_exists : Refusal
  member_not_found owner_changed_by_other last_owner_demoted : Refusal
  owner_removed_by_other last_owner_removed : Refusal

unfoldable pub count_owners : ℕ → Db → ℕ
count_owners tenant_id db =
    count (λ m. m.tenant_id == tenant_id && str_eq m.role role_owner) db.memberships

-- `role in ROLES`
unfoldable pub is_role : String → Bool
is_role role = contains roles role

abbrev pub validate_role : String → Exec Db Refusal (Unit {0})
validate_role role = raise_if (not (is_role role)) invalid_role

unfoldable pub get_membership : ℕ → ℕ → Db → Option Membership
get_membership tenant_id user_id db =
    find (λ m. m.user_id == user_id && m.tenant_id == tenant_id) db.memberships

-- `actor_role is not None and actor_role != ROLE_OWNER`
unfoldable pub is_lesser_actor : Option String → Bool
is_lesser_actor none = false
is_lesser_actor (some role) = not (str_eq role role_owner)

unfoldable pub is_member : ℕ → Option User → Db → Bool
is_member tenant_id none db = false
is_member tenant_id (some user) db = is_some (get_membership tenant_id user.id db)

module _ (env : Env) (now : ℕ) where
  unfoldable pub is_pending_for : String → ℕ → Invitation → Bool
  is_pending_for email tenant_id i =
      str_eq (env.lower i.email) (env.lower email)
      && i.tenant_id == tenant_id
      && is_none i.accepted_at
      && ltb now i.expires_at

  unfoldable pub create_invitation :
      (id : ℕ) (token : String) (tenant_id : ℕ) (email role : String) (actor_role : Option String)
      (invited_by_user_id : Option ℕ)
      → Exec Db Refusal (Invitation × String)
  create_invitation id token tenant_id email role actor_role invited_by_user_id = do
    validate_role role
    raise_if (str_eq role role_owner && is_lesser_actor actor_role) owner_invited_by_other
    existing_user ← gets (get_user_by_email env email)
    raise_if (← gets (is_member tenant_id existing_user)) already_member
    pending ← gets (λ db. find (is_pending_for email tenant_id) db.invitations)
    raise_if (is_some pending) invitation_pending
    let invitation : Invitation = record {
      id = id;
      email = email;
      tenant_id = tenant_id;
      role = role;
      token_hash = env.sha256_hex token;
      expires_at = now + hours env.settings.invitation_ttl_hours;
      accepted_at = none;
      invited_by_user_id = invited_by_user_id;
    }
    modify (λ db. record db { invitations = invitation ∷ db.invitations })
    pure (invitation, token)

  pub revoke_invitation : (tenant_id invitation_id : ℕ) → Exec Db Refusal Invitation
  revoke_invitation tenant_id invitation_id = do
    found ← gets (λ db. get (λ i. i.id) invitation_id db.invitations)
    invitation ← or_raise found invitation_not_found
    raise_if (not (invitation.tenant_id == tenant_id)) invitation_not_found
    raise_if (is_some invitation.accepted_at) invitation_already_accepted
    modify (λ db. record db { invitations = delete (λ i. i.id) invitation.id db.invitations })
    pure invitation

  -- The user of an accepted invitation: a new one, with a password if one is given, or the one
  -- that has the email, who must not send a password.
  unfoldable pub join_as :
      (new_user_id : ℕ) (email : String) (password display_name : Option String)
      → Option User
      → Exec Db Refusal User
  join_as new_user_id email password display_name none = do
    let user : User = record { id = new_user_id; email = email; display_name = display_name }
    modify (λ db. record db { users = user ∷ db.users })
    elim password [ none ↦ pure tt | some chosen ↦ set_password env user.id chosen ]
    pure user
  join_as new_user_id email password display_name (some user) = do
    let name = if is_none user.display_name then display_name else user.display_name
    modify (λ db. record db {
      users = update (λ u. u.id) user.id (λ u. record u { display_name = name }) db.users;
    })
    raise_if (is_some password) account_exists
    pure (record user { display_name = name })

  unfoldable pub is_acceptable : Invitation → Bool
  is_acceptable i = is_none i.accepted_at && not (ltb i.expires_at now)

  unfoldable pub accept_invitation :
      (new_user_id new_membership_id : ℕ) (token : String) (password display_name : Option String)
      → Exec Db Refusal (User × Invitation)
  accept_invitation new_user_id new_membership_id token password display_name = do
    found ← gets (λ db. find (λ i. str_eq i.token_hash (env.sha256_hex token)) db.invitations)
    invitation ← or_raise found invitation_invalid
    raise_if (not (is_acceptable invitation)) invitation_invalid
    existing ← gets (get_user_by_email env invitation.email)
    user ← join_as new_user_id invitation.email password display_name existing
    membership ← gets (get_membership invitation.tenant_id user.id)
    raise_if (is_some membership) already_member
    let member : Membership = record {
      id = new_membership_id;
      user_id = user.id;
      tenant_id = invitation.tenant_id;
      role = invitation.role;
    }
    modify (λ db. record db {
      memberships = member ∷ db.memberships;
      invitations =
          update (λ i. i.id) invitation.id (λ i. record i { accepted_at = some now })
            db.invitations;
    })
    pure (user, record invitation { accepted_at = some now })

-- `membership.role == ROLE_OWNER and new_role != ROLE_OWNER and count <= 1`
pub demotes_last_owner : ℕ → String → Membership → Db → Bool
demotes_last_owner tenant_id new_role m db =
    str_eq m.role role_owner
    && not (str_eq new_role role_owner)
    && leb (count_owners tenant_id db) 1

pub set_role : String → Membership → Db → Db
set_role new_role m db = record db {
  memberships = update (λ row. row.id) m.id (λ row. record row { role = new_role }) db.memberships;
}

pub change_member_role :
    (tenant_id user_id : ℕ) (new_role actor_role : String) → Exec Db Refusal Membership
change_member_role tenant_id user_id new_role actor_role = do
  validate_role new_role
  found ← gets (get_membership tenant_id user_id)
  m ← or_raise found member_not_found
  raise_if
      ((str_eq new_role role_owner || str_eq m.role role_owner)
        && not (str_eq actor_role role_owner))
      owner_changed_by_other
  raise_if (← gets (demotes_last_owner tenant_id new_role m)) last_owner_demoted
  modify (set_role new_role m)
  pure (record m { role = new_role })

pub drop_member : Membership → Db → Db
drop_member m db = record db { memberships = delete (λ row. row.id) m.id db.memberships }

-- The rules on the removal of an owner.
guard_owner_removal : ℕ → Membership → String → Exec Db Refusal (Unit {0})
guard_owner_removal tenant_id m actor_role =
    if str_eq m.role role_owner
    then (do
      raise_if (not (str_eq actor_role role_owner)) owner_removed_by_other
      raise_if (← gets (λ db. leb (count_owners tenant_id db) 1)) last_owner_removed)
    else pure tt

pub remove_member : (tenant_id user_id : ℕ) (actor_role : String) → Exec Db Refusal (Unit {0})
unfolding guard_owner_removal
remove_member tenant_id user_id actor_role = do
  found ← gets (get_membership tenant_id user_id)
  m ← or_raise found member_not_found
  guard_owner_removal tenant_id m actor_role
  modify (drop_member m)
