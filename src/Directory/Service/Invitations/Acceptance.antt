-- ===== src/Directory/Service/Invitations/Acceptance.antt =====
-- apps/api/app/directory/service.py: an invitation from creation to acceptance.
use blank.Prelude.{
  ap, ℕ, ◌+◌, ◌≤◌, ◌≡◌, refl, ◌⊎◌, false, Option, none, some, List, ◌∷◌, String, str_eq, arith,
  if◌then◌else◌, is_none, ok,
}
use blank.Prelude.Text.{str_eq_refl}
use blank.Prelude.Table.{find}
use blank.Core.Config.{Env, hours}
use blank.Core.Db.{Db}
use blank.Auth.Models.{Invitation}
use blank.Auth.Users.{get_user_by_email, set_password}
use blank.Directory.Models.{User, Membership}
use blank.Directory.Service.{
  get_membership, is_member, create_invitation, join_as, is_acceptable, accept_invitation,
}
use blank.Directory.Service.Invitations.{
  join_as-keeps, get_membership_same, accept_invitation_effect, create_invitation_effect,
}

-- The user that an acceptance with these arguments returns.
abbrev joined_user :
    (new_user_id : ℕ) (email : String) (display_name : Option String) → Option User → User
joined_user new_user_id email display_name none = record {
  id = new_user_id;
  email = email;
  display_name = display_name;
}
joined_user new_user_id email display_name (some user) = record user {
  display_name = if is_none user.display_name then display_name else user.display_name;
}

join_as_returns :
    (env : Env) (now new_user_id : ℕ) (email : String) (password display_name : Option String)
    (existing : Option User) (db : Db)
    → (password ≡ none) ⊎ (existing ≡ none)
    → (join_as env now new_user_id email password display_name existing db).0
      ≡ ok (joined_user new_user_id email display_name existing)
unfolding join_as set_password
join_as_returns env now new_user_id email password display_name none db h = ground arith
join_as_returns env now new_user_id email password display_name (some user) db h = ground arith

joined_user-not_member :
    (tenant_id new_user_id : ℕ) (email : String) (display_name : Option String)
    (existing : Option User) (db : Db)
    → is_member tenant_id existing db ≡ false
    → get_membership tenant_id new_user_id db ≡ none
    → get_membership tenant_id (joined_user new_user_id email display_name existing).id db ≡ none
unfolding is_member
joined_user-not_member tenant_id new_user_id email display_name none db h fresh = fresh
joined_user-not_member tenant_id new_user_id email display_name (some user) db h fresh =
    ground arith

get_membership_head :
    (tenant_id user_id : ℕ) (db : Db) (m : Membership) (rest : List Membership)
    → db.memberships ≡ m ∷ rest
    → m.tenant_id ≡ tenant_id
    → m.user_id ≡ user_id
    → get_membership tenant_id user_id db ≡ some m
unfolding get_membership
get_membership_head tenant_id user_id db m rest e t u = ground arith

-- The query for a user by email reads nothing but the users.
get_user_by_email_same :
    (env : Env) (email : String) (db db' : Db)
    → db'.users ≡ db.users
    → get_user_by_email env email db' ≡ get_user_by_email env email db
unfolding get_user_by_email
get_user_by_email_same env email db db' e =
    ap (find (λ u. str_eq (env.lower u.email) (env.lower email))) e

-- Acceptance at a table whose first invitation has the token.
accept_first :
    (env : Env) (token : String) (later new_user_id new_membership_id : ℕ)
    (password display_name : Option String) (db : Db) (i : Invitation)
    → i.token_hash ≡ env.sha256_hex token
    → i.accepted_at ≡ none
    → later ≤ i.expires_at
    → is_member i.tenant_id (get_user_by_email env i.email db) db ≡ false
    → get_membership i.tenant_id new_user_id db ≡ none
    → (password ≡ none) ⊎ (get_user_by_email env i.email db ≡ none)
    → (accept_invitation env later new_user_id new_membership_id token password display_name
        (record db { invitations = i ∷ db.invitations })).0
      ≡ ok (
        joined_user new_user_id i.email display_name (get_user_by_email env i.email db),
        record i { accepted_at = some later },
      )
unfolding accept_invitation is_acceptable
accept_first env token later new_user_id new_membership_id password display_name db i hashed unused
      in_time stranger fresh may_join =
    let db₁ : Db = record db { invitations = i ∷ db.invitations } in
    let existing = get_user_by_email env i.email db in
    let user = joined_user new_user_id i.email display_name existing in
    let joined = (join_as env later new_user_id i.email password display_name existing db₁).1 in
    let keeps = join_as-keeps env later new_user_id i.email password display_name existing db₁ in
    ground (
      arith,
      keeps,
      join_as_returns env later new_user_id i.email password display_name existing db₁ may_join,
      get_user_by_email_same env i.email db db₁ refl,
      joined_user-not_member i.tenant_id new_user_id i.email display_name existing db stranger
          fresh,
      get_membership_same i.tenant_id user.id db joined keeps.1,
      str_eq_refl (env.sha256_hex token),
    )

-- The token of an invitation that was created is accepted within the time to live, by a new user or
-- by a known one who sends no password, and gives the invited role in the tenant.
pub invite_then_accept :
    (env : Env) (now id : ℕ) (token : String) (tenant_id : ℕ) (email role : String)
    (actor_role : Option String) (invited_by_user_id : Option ℕ) (db : Db) {i : Invitation}
    {clear : String} (later new_user_id new_membership_id : ℕ)
    (password display_name : Option String)
    → (create_invitation env now id token tenant_id email role actor_role invited_by_user_id db).0
      ≡ ok (i, clear)
    → later ≤ now + hours env.settings.invitation_ttl_hours
    → get_membership tenant_id new_user_id db ≡ none
    → (password ≡ none) ⊎ (get_user_by_email env email db ≡ none)
    → let sent =
        (create_invitation env now id token tenant_id email role actor_role invited_by_user_id
          db).1 in
      let (answer, after) =
        accept_invitation env later new_user_id new_membership_id clear password display_name
          sent in
      (user : User) × (answer ≡ ok (user, record i { accepted_at = some later }))
      × (get_membership tenant_id user.id after
          ≡ some (record {
            id = new_membership_id;
            user_id = user.id;
            tenant_id = tenant_id;
            role = role;
          }))
invite_then_accept env now id token tenant_id email role actor_role invited_by_user_id db {i}
      {clear} later new_user_id new_membership_id password display_name done in_time fresh
      may_join =
    let (known, allowed, stranger, free, row, same_token, sent) =
      create_invitation_effect env now id token tenant_id email role actor_role invited_by_user_id
        db done in
    let made : Invitation = record {
      id = id;
      email = email;
      tenant_id = tenant_id;
      role = role;
      token_hash = env.sha256_hex token;
      expires_at = now + hours env.settings.invitation_ttl_hours;
      accepted_at = none;
      invited_by_user_id = invited_by_user_id;
    } in
    let db₁ : Db = record db { invitations = made ∷ db.invitations } in
    let user = joined_user new_user_id email display_name (get_user_by_email env email db) in
    let accepted =
      accept_first env token later new_user_id new_membership_id password display_name db made refl
        refl in_time stranger fresh may_join in
    let effect =
      accept_invitation_effect env later new_user_id new_membership_id token password display_name
        db₁ accepted in
    let member : Membership = record {
      id = new_membership_id;
      user_id = user.id;
      tenant_id = tenant_id;
      role = role;
    } in
    rw (sent, same_token, row)
      (
        user,
        accepted,
        get_membership_head tenant_id user.id _ member db.memberships effect.6 refl refl,
      )
