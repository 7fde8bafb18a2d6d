-- ===== src/Directory/Service/Invitations.antt =====
-- apps/api/app/directory/service.py: lemmas on the creation and acceptance of an invitation.
pub mod Acceptance
use blank.Prelude.{
  ap, ℕ, ◌+◌, ◌≤◌, ◌≡◌, refl, ◌⊎◌, inl, inr, true, false, ◌&&◌, Option, none, some, List, ◌∷◌,
  String, str_eq, arith, ◌==◌, if◌then◌else◌, Option-cases, is_none, ok, err,
}
use blank.Prelude.Text.{str_eq_refl}
use blank.Prelude.Table.{find, find-update_where}
use blank.Core.Config.{Env, hours}
use blank.Core.Db.{Db}
use blank.Auth.Models.{Invitation}
use blank.Auth.Users.{get_user_by_email, set_password, write_credentials, ensure_credentials}
use blank.Auth.Permissions.Names.{role_owner}
use blank.Directory.Models.{User, Membership}
use blank.Directory.Service.{
  invitation_invalid, get_membership, is_member, is_pending_for, create_invitation, join_as,
  is_acceptable, accept_invitation, is_role, is_lesser_actor,
}

module _ (env : Env) (now new_user_id : ℕ) (email : String)
    (password display_name : Option String) where
  -- Joining writes users and credentials alone.
  join_as-keeps :
      (existing : Option User) (db : Db)
      → ((join_as env now new_user_id email password display_name existing db).1.invitations
          ≡ db.invitations)
        × ((join_as env now new_user_id email password display_name existing db).1.memberships
            ≡ db.memberships)
  unfolding join_as set_password write_credentials ensure_credentials
  join_as-keeps none db = ground arith
  join_as-keeps (some user) db = ground arith

-- The membership query reads nothing but the memberships.
get_membership_same :
    (tenant_id user_id : ℕ) (db db' : Db)
    → db'.memberships ≡ db.memberships
    → get_membership tenant_id user_id db' ≡ get_membership tenant_id user_id db
unfolding get_membership
get_membership_same tenant_id user_id db db' e =
    ap (find (λ m. m.user_id == user_id && m.tenant_id == tenant_id)) e

module _ (env : Env) (now new_user_id new_membership_id : ℕ) (token : String)
    (password display_name : Option String) where
  -- An acceptance that returns found an invitation with the token's hash that was neither accepted
  -- nor expired, and adds one membership, of the invitation's tenant and with its role, for a user
  -- who had none there; it marks the invitation accepted.
  pub accept_invitation_effect :
      (db : Db) {user : User} {i : Invitation}
      → (accept_invitation env now new_user_id new_membership_id token password display_name db).0
        ≡ ok (user, i)
      → (row : Invitation) × (find (λ x. str_eq x.token_hash (env.sha256_hex token)) db.invitations
          ≡ some row)
        × (row.accepted_at ≡ none)
        × (now ≤ row.expires_at)
        × (i ≡ record row { accepted_at = some now })
        × (get_membership i.tenant_id user.id db ≡ none)
        × ((accept_invitation env now new_user_id new_membership_id token password display_name
              db).1.memberships
            ≡ record {
              id = new_membership_id;
              user_id = user.id;
              tenant_id = i.tenant_id;
              role = i.role;
            }
              ∷ db.memberships)
  unfolding accept_invitation is_acceptable
  accept_invitation_effect db {user} {i} done =
      elim (Option-cases (find (λ x. str_eq x.token_hash (env.sha256_hex token)) db.invitations)) [
        | inl absent ↦ ground arith
        | inr (row, e) ↦
            let keeps =
              join_as-keeps env now new_user_id row.email password display_name
                (get_user_by_email env row.email db) db in
            let joined =
              (join_as env now new_user_id row.email password display_name
                (get_user_by_email env row.email db) db).1 in
            let same = get_membership_same row.tenant_id user.id db joined keeps.1 in
            (
              row,
              e,
              ground arith,
              ground arith,
              ground arith,
              ground (arith, keeps, same),
              ground (arith, keeps),
            )
      ]

  -- An invitation is used once: after an acceptance, its token is refused at every later instant,
  -- whoever sends it.
  pub accept_invitation_once :
      (db : Db) {user : User} {i : Invitation} (later other_user_id other_membership_id : ℕ)
      (other_password other_name : Option String)
      → (accept_invitation env now new_user_id new_membership_id token password display_name db).0
        ≡ ok (user, i)
      → (accept_invitation env later other_user_id other_membership_id token other_password
          other_name
          (accept_invitation env now new_user_id new_membership_id token password display_name
            db).1).0
        ≡ err invitation_invalid
  unfolding accept_invitation is_acceptable
  accept_invitation_once db later other_user_id other_membership_id other_password other_name done =
      elim (Option-cases (find (λ x. str_eq x.token_hash (env.sha256_hex token)) db.invitations)) [
        | inl absent ↦ ground arith
        | inr (row, e) ↦
            let keeps =
              join_as-keeps env now new_user_id row.email password display_name
                (get_user_by_email env row.email db) db in
            let used =
              find-update_where (λ x. str_eq x.token_hash (env.sha256_hex token))
                (λ x. x.id == row.id) (λ x. record x { accepted_at = some now }) db.invitations
                {r = row} (λ x. refl) e (ground arith) in
            ground (arith, keeps, used)
      ]

module _ (env : Env) (now id : ℕ) (token : String) (tenant_id : ℕ) (email role : String)
    (actor_role : Option String) (invited_by_user_id : Option ℕ) where
  -- A creation that returns checked the role, that no lesser actor invites an owner, that the email
  -- has no member of the tenant and no pending invitation; it adds the invitation, which expires
  -- after the time to live, and writes nothing else.
  pub create_invitation_effect :
      (db : Db) {i : Invitation} {clear : String}
      → (create_invitation env now id token tenant_id email role actor_role invited_by_user_id db).0
        ≡ ok (i, clear)
      → (is_role role ≡ true)
        × ((str_eq role role_owner && is_lesser_actor actor_role) ≡ false)
        × (is_member tenant_id (get_user_by_email env email db) db ≡ false)
        × (find (is_pending_for env now email tenant_id) db.invitations ≡ none)
        × (i ≡ record {
          id = id;
          email = email;
          tenant_id = tenant_id;
          role = role;
          token_hash = env.sha256_hex token;
          expires_at = now + hours env.settings.invitation_ttl_hours;
          accepted_at = none;
          invited_by_user_id = invited_by_user_id;
        })
        × (clear ≡ token)
        × ((create_invitation env now id token tenant_id email role actor_role invited_by_user_id
              db).1
            ≡ record db { invitations = i ∷ db.invitations })
  unfolding create_invitation
  create_invitation_effect db {i} {clear} done =
      let pending = find (is_pending_for env now email tenant_id) db.invitations in
      (
        ground arith,
        ground arith,
        ground arith,
        ground arith,
        ground arith,
        ground arith,
        ground arith,
      )
