-- ===== src/Tests/Teams.antt =====
-- The theorems on the directory's routes at a tenant with two owners and a team.
use blank.Prelude.{◌≡◌, refl, ◌⊎◌, none, some, [], ◌∷◌, is_some, true, false}
use blank.Prelude.Table.{find}
use blank.Directory.TenantModels.{Team, TenantDb}
use blank.Directory.Service.{
  get_membership, change_member_role, remove_member, create_invitation, revoke_invitation,
}
use blank.Directory.Routes.{
  Request, Printer, open_sessions, member_change_role, member_remove, invitation_create,
  invitation_revoke,
}
use blank.Directory.Routes.Trace.{IsTraced, routes-IsTraced}
use blank.Directory.Teams.{
  is_in_team, team_by_id, team_create, team_delete, team_member_add, team_member_remove,
  team_members_list,
}
use blank.Directory.Teams.Integrity.{IsTeams}
use blank.Directory.Teams.Preserved.{team_routes-IsTeams, team_member_add-guarded}
use blank.Directory.Teams.Members.{Tells, team_members_list-Tells}
use blank.Tests.{env, db, ann}

abbrev printer : Printer
printer = record { show_id = λ id. "i"; json = λ fields. "{}" }

abbrev asked : Request
asked = record {
  tenant_id = 1;
  role = some "owner";
  user = ann;
  now = 7;
  audit_id = 90;
  tenant_commits = true;
  control_commits = true;
  mail_sent = false;
}

abbrev ops : Team
ops = record { id = 4; name = "ops"; description = none }

abbrev teams : TenantDb
teams = record {
  teams = ops ∷ [];
  team_members = record { id = 6; team_id = 4; user_id = 10 } ∷ [];
  audit = [];
}

routes-IsTraced_example :
    IsTraced printer asked
      (db true)
      teams
      "core.member.role_changed"
      "i"
      (change_member_role 1 11 "member" "owner" (db true)).1
      (member_change_role printer asked 11 "member" (open_sessions (db true) teams))
    × IsTraced printer asked
        (db true)
        teams
        "core.member.removed"
        "i"
        (remove_member 1 11 "owner" (db true)).1
        (member_remove printer asked 11 (open_sessions (db true) teams))
    × IsTraced printer asked
        (db true)
        teams
        "core.member.invited"
        "i"
        (create_invitation env 7 5 "t0" 1 "bob@x" "member" (some "owner") (some 10) (db true)).1
        (invitation_create printer asked env 5 "t0" "bob@x" "member"
          (open_sessions (db true) teams))
    × IsTraced printer asked
        (db true)
        teams
        "core.member.invitation_revoked"
        "i"
        (revoke_invitation env 7 1 5 (db true)).1
        (invitation_revoke printer asked env 5 (open_sessions (db true) teams))
routes-IsTraced_example =
    routes-IsTraced printer asked (db true) teams 11 "member" env 5 "t0" "bob@x" "member"

teams-IsTeams : IsTeams teams
teams-IsTeams = record { names = (tt, tt); pairs = (tt, tt); owned = (refl, tt) }

team_routes-IsTeams_example :
    IsTeams
      (team_create printer asked 5 "dev" none (open_sessions (db true) teams)).1.tenant.committed
    × IsTeams (team_delete printer asked 5 (open_sessions (db true) teams)).1.tenant.committed
    × IsTeams
        (team_member_add printer asked 8 5 11 (open_sessions (db true) teams)).1.tenant.committed
    × IsTeams
        (team_member_remove printer asked 5 11 (open_sessions (db true) teams)).1.tenant.committed
team_routes-IsTeams_example =
    team_routes-IsTeams printer asked (db true) teams 5 8 11 "dev" none teams-IsTeams

team_member_add-guarded_example :
    let rows =
      (team_member_add printer asked 8 4 11
        (open_sessions (db true) teams)).1.tenant.committed.team_members in
    (rows ≡ teams.team_members)
    ⊎ ((rows ≡ record { id = 8; team_id = 4; user_id = 11 } ∷ teams.team_members)
        × (is_some (team_by_id 4 teams) ≡ true)
        × (is_some (get_membership 1 11 (db true)) ≡ true)
        × (is_some (find (is_in_team 4 11) teams.team_members) ≡ false))
team_member_add-guarded_example = team_member_add-guarded printer asked (db true) teams 8 4 11

team_members_list-Tells_example :
    Tells printer asked 4
      (db true)
      teams
      (team_members_list printer asked 4 (open_sessions (db true) teams))
team_members_list-Tells_example = team_members_list-Tells printer asked 4 (db true) teams
