-- ===== src/Directory/Teams.antt =====
-- apps/api/app/directory/router.py: the routes on teams. The caller has the route's permission, and
-- the body of the request its form.
pub mod Integrity
pub mod Preserved
pub mod Members
use blank.Prelude.{
  ℕ, Bool, true, false, not, ◌&&◌, Option, none, some, List, [], ◌∷◌, ◌++◌, String, str_eq, ◌==◌,
  if◌then◌else◌, is_some, Result, ok, err, Exec, pure, raise, gets, or_raise, raise_if, modify,
  ◌>>=◌, ◌>>◌, map,
}
use mathlib.Core.Option
use blank.Prelude.Table.{find, get, select, delete}
use blank.Core.Db.{Db}
use blank.Directory.Models.{User, Membership}
use blank.Directory.TenantModels.{Team, TeamMember, TenantDb}
use blank.Directory.Service.{get_membership}
use blank.Directory.Routes.{
  HttpError, http_exception, Sessions, Route, Request, Printer, MemberOut, control_state,
  tenant_state, modify_tenant, commit_tenant, event,
}

abbrev pub team_by_id : ℕ → TenantDb → Option Team
team_by_id team_id t = get (λ team. team.id) team_id t.teams

abbrev pub is_in_team : (team_id user_id : ℕ) → TeamMember → Bool
is_in_team team_id user_id m = m.team_id == team_id && m.user_id == user_id

-- The rows of a team's members, which the foreign key deletes with the team.
abbrev pub delete_team : ℕ → TenantDb → TenantDb
delete_team team_id t = record t {
  teams = delete (λ team. team.id) team_id t.teams;
  team_members = select (λ m. not (m.team_id == team_id)) t.team_members;
}

module _ (p : Printer) (req : Request) where
  -- The row of a new team, its event and the commit.
  pub save_team : Team → Route Team
  save_team team = do
    modify_tenant (λ t. record t { teams = team ∷ t.teams })
    modify_tenant
        (event p req "core.team.created" "team" (p.show_id team.id) (("name", some team.name) ∷ []))
    commit_tenant
    pure team

  pub team_create : (team_id : ℕ) (name : String) (description : Option String) → Route Team
  unfolding save_team
  team_create team_id name description = do
    existing ← gets (λ s. find (λ (team : Team). str_eq team.name name) (tenant_state s).teams)
    raise_if (is_some existing) (http_exception 409)
    save_team (record { id = team_id; name = name; description = description })

  pub drop_team : Team → Route (Unit {0})
  drop_team team = do
    modify_tenant
        (event p req "core.team.deleted" "team" (p.show_id team.id) (("name", some team.name) ∷ []))
    modify_tenant (delete_team team.id)
    commit_tenant

  pub team_delete : (team_id : ℕ) → Route (Unit {0})
  unfolding drop_team
  team_delete team_id = do
    found ← gets (λ s. team_by_id team_id (tenant_state s))
    team ← or_raise found (http_exception 404)
    drop_team team

  pub save_member : (row_id : ℕ) → Team → (team_id user_id : ℕ) → Route (Unit {0})
  save_member row_id team team_id user_id = do
    modify_tenant (λ t. record t {
      team_members = record { id = row_id; team_id = team_id; user_id = user_id } ∷ t.team_members;
    })
    modify_tenant (
        event p req "core.team.member_added" "team" (p.show_id team_id)
          (("team_name", some team.name) ∷ ("user_id", some (p.show_id user_id)) ∷ []))
    commit_tenant

  pub team_member_add : (row_id team_id user_id : ℕ) → Route (Unit {0})
  unfolding save_member
  team_member_add row_id team_id user_id = do
    found ← gets (λ s. team_by_id team_id (tenant_state s))
    team ← or_raise found (http_exception 404)
    membership ← gets (λ s. get_membership req.tenant_id user_id (control_state s))
    or_raise membership (http_exception 400)
    duplicate ← gets (λ s. find (is_in_team team_id user_id) (tenant_state s).team_members)
    raise_if (is_some duplicate) (http_exception 409)
    save_member row_id team team_id user_id

  pub drop_member_of : TeamMember → Option Team → (team_id user_id : ℕ) → Route (Unit {0})
  drop_member_of team_member team team_id user_id = do
    modify_tenant (
        event p req "core.team.member_removed" "team" (p.show_id team_id) (
          ("team_name", Option.map (λ (t : Team). t.name) team)
          ∷ ("user_id", some (p.show_id user_id))
          ∷ []))
    modify_tenant (λ t. record t {
      team_members = delete (λ (m : TeamMember). m.id) team_member.id t.team_members;
    })
    commit_tenant

  pub team_member_remove : (team_id user_id : ℕ) → Route (Unit {0})
  unfolding drop_member_of
  team_member_remove team_id user_id = do
    found ← gets (λ s. find (is_in_team team_id user_id) (tenant_state s).team_members)
    team_member ← or_raise found (http_exception 404)
    team ← gets (λ s. team_by_id team_id (tenant_state s))
    drop_member_of team_member team team_id user_id

  -- `User.id.in_(user_ids)`
  is_listed : List TeamMember → ℕ → Bool
  is_listed [] user_id = false
  is_listed (m ∷ members) user_id = if m.user_id == user_id then true else is_listed members user_id

  -- The join of the users with their memberships of the tenant.
  joined : List User → Membership → List MemberOut
  joined [] m = []
  joined (u ∷ users) m =
      let rest = joined users m in
      if u.id == m.user_id
      then record { user_id = u.id; email = u.email; display_name = u.display_name; role = m.role }
        ∷ rest
      else rest

  join : List User → List Membership → List MemberOut
  unfolding joined
  join users [] = []
  join users (m ∷ members) = joined users m ++ join users members

  pub team_members_list : (team_id : ℕ) → Route (List MemberOut)
  unfolding is_listed join
  team_members_list team_id = do
    found ← gets (λ s. team_by_id team_id (tenant_state s))
    team ← or_raise found (http_exception 404)
    team_members ←
        gets (λ s. select (λ (m : TeamMember). m.team_id == team_id) (tenant_state s).team_members)
    gets (λ s.
        join (select (λ (u : User). is_listed team_members u.id) (control_state s).users)
          (select (λ (m : Membership). m.tenant_id == req.tenant_id) (control_state s).memberships))
