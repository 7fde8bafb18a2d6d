-- ===== src/Directory/Teams/Preserved.antt =====
-- apps/api/app/directory/router.py: the routes on teams keep the teams in order, and whom they add and
-- list.
use blank.Prelude.{
  ℕ, ◌≡◌, refl, ◌⊎◌, inl, inr, Bool, true, false, Option, none, some, List, [], ◌∷◌, String, str_eq,
  is_some, Result, gets, or_raise, raise_if, ◌>>=◌,
}
use blank.Prelude.Table.{find}
use blank.Core.Db.{Db}
use blank.Directory.Models.{Membership}
use blank.Directory.TenantModels.{Team, TeamMember, TenantDb}
use blank.Directory.Service.{get_membership}
use blank.Directory.Routes.{
  HttpError, http_exception, Sessions, Route, Request, Printer, control_state, tenant_state,
  open_sessions, event,
}
use blank.Directory.Teams.{
  team_by_id, is_in_team, save_team, team_create, drop_team, team_delete, save_member,
  team_member_add, drop_member_of, team_member_remove,
}
use blank.Directory.Teams.Integrity.{
  IsTeams, add_team-IsTeams, delete_team-IsTeams, add_member-IsTeams, drop_member-IsTeams,
}

module _ (P : TenantDb → Type 0) (s : Sessions) (start : P s.tenant.committed) where
  abbrev Ends : {A : Type 0} → Result HttpError A × Sessions → Type 0
  Ends (answer, s') = P s'.tenant.committed

  or_raise-Ends :
      {A B : Type 0} (o : Option A) (e : HttpError) (k : A → Route B)
      → ((a : A) → o ≡ some a → Ends (k a s))
      → Ends ((or_raise o e >>= k) s)
  or_raise-Ends none e k h = start
  or_raise-Ends (some a) e k h = h a refl

  raise_if-Ends :
      {B : Type 0} (b : Bool) (e : HttpError) (k : Unit {0} → Route B)
      → (b ≡ false → Ends (k tt s))
      → Ends ((raise_if b e >>= k) s)
  raise_if-Ends true e k h = start
  raise_if-Ends false e k h = h refl

module _ (p : Printer) (req : Request) (db : Db) (t : TenantDb) where
  abbrev before : Sessions
  before = open_sessions db t

  logged-IsTeams :
      (action kind object : String) (payload : List (String × Option String)) (t' : TenantDb)
      → IsTeams t'
      → IsTeams (event p req action kind object payload t')
  unfolding event
  logged-IsTeams action kind object payload t' w' = record {
    names = w'.names;
    pairs = w'.pairs;
    owned = w'.owned;
  }

  team_create-IsTeams :
      (w : IsTeams t) (team_id : ℕ) (name : String) (description : Option String)
      → IsTeams (team_create p req team_id name description before).1.tenant.committed
  unfolding team_create save_team
  team_create-IsTeams w team_id name description =
      let team : Team = record { id = team_id; name = name; description = description } in
      let taken = is_some (find (λ (x : Team). str_eq x.name name) t.teams) in
      raise_if-Ends IsTeams before w taken (http_exception 409) (λ _. save_team p req team)
        (λ free.
          logged-IsTeams "core.team.created" "team" (p.show_id team_id) (("name", some name) ∷ [])
            (record t { teams = team ∷ t.teams }) (add_team-IsTeams team t free w))

  team_delete-IsTeams :
      (w : IsTeams t) (team_id : ℕ) → IsTeams (team_delete p req team_id before).1.tenant.committed
  unfolding team_delete drop_team event
  team_delete-IsTeams w team_id =
      or_raise-Ends IsTeams before w (team_by_id team_id t) (http_exception 404) (drop_team p req)
        (λ team _.
          let kept = delete_team-IsTeams team.id t w in
          record { names = kept.names; pairs = kept.pairs; owned = kept.owned })

  -- The rest of an addition, once the team is found, and once the membership is.
  abbrev check_duplicate : (row_id team_id user_id : ℕ) → Team → Membership → Route (Unit {0})
  check_duplicate row_id team_id user_id team m =
      gets (λ s. find (is_in_team team_id user_id) (tenant_state s).team_members) >>= (λ duplicate.
        raise_if (is_some duplicate) (http_exception 409)
        >>= (λ _. save_member p req row_id team team_id user_id))

  abbrev check_membership : (row_id team_id user_id : ℕ) → Team → Route (Unit {0})
  check_membership row_id team_id user_id team =
      gets (λ s. get_membership req.tenant_id user_id (control_state s)) >>= (λ membership.
        or_raise membership (http_exception 400) >>= check_duplicate row_id team_id user_id team)

  module _ (P : TenantDb → Type 0) (start : P t) (row_id team_id user_id : ℕ) where
    -- What holds before an addition, and after one that passes its three tests, holds in the end.
    team_member_add-Ends :
        ((team : Team)
          → team_by_id team_id t ≡ some team
          → (m : Membership) → get_membership req.tenant_id user_id db ≡ some m
          → is_some (find (is_in_team team_id user_id) t.team_members) ≡ false
          → P (save_member p req row_id team team_id user_id before).1.tenant.committed)
        → P (team_member_add p req row_id team_id user_id before).1.tenant.committed
    unfolding team_member_add
    team_member_add-Ends h =
        or_raise-Ends P before start (team_by_id team_id t) (http_exception 404)
          (check_membership row_id team_id user_id)
          (λ team has.
            or_raise-Ends P before start (get_membership req.tenant_id user_id db)
              (http_exception 400) (check_duplicate row_id team_id user_id team)
              (λ m found.
                raise_if-Ends P before start
                  (is_some (find (is_in_team team_id user_id) t.team_members)) (http_exception 409)
                  (λ _. save_member p req row_id team team_id user_id)
                  (λ free. h team has m found free)))

  team_member_add-IsTeams :
      (w : IsTeams t) (row_id team_id user_id : ℕ)
      → IsTeams (team_member_add p req row_id team_id user_id before).1.tenant.committed
  unfolding save_member event
  team_member_add-IsTeams w row_id team_id user_id =
      team_member_add-Ends IsTeams w row_id team_id user_id (λ team has m found free.
        let row : TeamMember = record { id = row_id; team_id = team_id; user_id = user_id } in
        let owned : is_some (team_by_id team_id t) ≡ true = rw has refl in
        let kept = add_member-IsTeams row t free owned w in
        record { names = kept.names; pairs = kept.pairs; owned = kept.owned })

  team_member_remove-IsTeams :
      (w : IsTeams t) (team_id user_id : ℕ)
      → IsTeams (team_member_remove p req team_id user_id before).1.tenant.committed
  unfolding team_member_remove drop_member_of event
  team_member_remove-IsTeams w team_id user_id =
      or_raise-Ends IsTeams before w (find (is_in_team team_id user_id) t.team_members)
        (http_exception 404)
        (λ m.
          gets (λ s. team_by_id team_id (tenant_state s))
          >>= (λ team. drop_member_of p req m team team_id user_id))
        (λ m _.
          let kept = drop_member-IsTeams m.id t w in
          record { names = kept.names; pairs = kept.pairs; owned = kept.owned })

-- Where no two teams share a name, no user is twice in a team and each row of a member has its team,
-- this still holds of what each of the four routes on teams leaves committed, whatever it answers.
pub team_routes-IsTeams :
    (p : Printer) (req : Request) (db : Db) (t : TenantDb) (team_id row_id user_id : ℕ)
    (name : String) (description : Option String)
    → IsTeams t
    → let s = open_sessions db t in
      IsTeams (team_create p req team_id name description s).1.tenant.committed
      × IsTeams (team_delete p req team_id s).1.tenant.committed
      × IsTeams (team_member_add p req row_id team_id user_id s).1.tenant.committed
      × IsTeams (team_member_remove p req team_id user_id s).1.tenant.committed
team_routes-IsTeams p req db t team_id row_id user_id name description w = (
  team_create-IsTeams p req db t w team_id name description,
  team_delete-IsTeams p req db t w team_id,
  team_member_add-IsTeams p req db t w row_id team_id user_id,
  team_member_remove-IsTeams p req db t w team_id user_id,
)

-- The committed rows of team members after an addition, whatever it answers: those of before, or these
-- and one more, of the team and the user that were asked for. In that case the team is there, the
-- user is a member of the tenant in the control database, and was not in the team.
pub team_member_add-guarded :
    (p : Printer) (req : Request) (db : Db) (t : TenantDb) (row_id team_id user_id : ℕ)
    → let rows =
        (team_member_add p req row_id team_id user_id
          (open_sessions db t)).1.tenant.committed.team_members in
      (rows ≡ t.team_members)
      ⊎ ((rows ≡ record { id = row_id; team_id = team_id; user_id = user_id } ∷ t.team_members)
          × (is_some (team_by_id team_id t) ≡ true)
          × (is_some (get_membership req.tenant_id user_id db) ≡ true)
          × (is_some (find (is_in_team team_id user_id) t.team_members) ≡ false))
unfolding save_member event
team_member_add-guarded p req db t row_id team_id user_id =
    team_member_add-Ends p req db t
      (λ t'.
        (t'.team_members ≡ t.team_members)
        ⊎ ((t'.team_members
              ≡ record { id = row_id; team_id = team_id; user_id = user_id } ∷ t.team_members)
            × (is_some (team_by_id team_id t) ≡ true)
            × (is_some (get_membership req.tenant_id user_id db) ≡ true)
            × (is_some (find (is_in_team team_id user_id) t.team_members) ≡ false)))
      (inl refl) row_id team_id user_id
      (λ team has m found free. inr (refl, rw has refl, rw found refl, free))
