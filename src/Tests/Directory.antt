-- ===== src/Tests/Directory.antt =====
-- The directory's theorems at a tenant with two owners.
use blank.Prelude.{◌≤◌, ◌≡◌, refl, inr, true, none, some, [], ◌∷◌, arith, ok, err}
use blank.Core.Config.{hours}
use blank.Core.Db.{Db}
use blank.Auth.Models.{Invitation}
use blank.Auth.Users.{get_user_by_email, set_password, write_credentials, ensure_credentials}
use blank.Directory.Models.{User}
use blank.Directory.Service.{
  invitation_invalid, count_owners, get_membership, remove_member, change_member_role,
  create_invitation, accept_invitation, is_role, is_lesser_actor, is_member, is_pending_for,
  is_acceptable, join_as,
}
use blank.Directory.Service.Owners.{
  HasKeys, remove_member-keeps_owner, change_member_role-keeps_owner,
}
use blank.Directory.Service.Invitations.{accept_invitation_once}
use blank.Directory.Service.Invitations.Acceptance.{invite_then_accept}
use blank.Tests.{env, db}

abbrev Kept : Db → Type 0
Kept db' = 1 ≤ count_owners 1 db'

db-HasKeys : HasKeys (db true)
db-HasKeys = ground arith

remove_member-keeps_owner_example : Kept (remove_member 1 10 "owner" (db true)).1
unfolding count_owners
remove_member-keeps_owner_example =
    remove_member-keeps_owner 1 10 "owner" (db true) 1 db-HasKeys (omega arith)

change_member_role-keeps_owner_example : Kept (change_member_role 1 11 "member" "owner" (db true)).1
unfolding count_owners
change_member_role-keeps_owner_example =
    change_member_role-keeps_owner 1 11 "member" "owner" (db true) 1 db-HasKeys (omega arith)

abbrev invited : Invitation
invited = record {
  id = 5;
  email = "bob@x";
  tenant_id = 1;
  role = "member";
  token_hash = "t0";
  expires_at = 259200000000;
  accepted_at = none;
  invited_by_user_id = some 10;
}

abbrev asked : Db
asked = record (db true) { invitations = invited ∷ [] }

abbrev bob : User
bob = record { id = 20; email = "bob@x"; display_name = none }

accept_invitation_once_example :
    (accept_invitation env 9 21 31 "t0" none none
      (accept_invitation env 7 20 30 "t0" (some "secret") none asked).1).0
    ≡ err invitation_invalid
unfolding accept_invitation is_acceptable join_as is_member get_membership get_user_by_email
    set_password write_credentials ensure_credentials
accept_invitation_once_example =
    accept_invitation_once env 7 20 30 "t0" (some "secret") none asked 9 21 31 none none refl

invite_then_accept_example :
    let sent =
      (create_invitation env 0 5 "t0" 1 "bob@x" "member" (some "owner") (some 10) (db true)).1 in
    let (answer, after) = accept_invitation env 7 20 30 "t0" (some "secret") none sent in
    (user : User) × (answer ≡ ok (user, record invited { accepted_at = some 7 }))
    × (get_membership 1 user.id after
        ≡ some (record { id = 30; user_id = user.id; tenant_id = 1; role = "member" }))
unfolding create_invitation is_role is_lesser_actor is_member is_pending_for get_membership
    get_user_by_email hours
invite_then_accept_example =
    invite_then_accept env 0 5 "t0" 1 "bob@x" "member" (some "owner") (some 10) (db true) 7 20 30
      (some "secret") none refl (omega arith) refl (inr refl)
