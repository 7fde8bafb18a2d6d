-- ===== src/Directory/Teams/Integrity.antt =====
-- apps/api/app/directory/router.py: the teams after each route.
use blank.Prelude.{
  ℕ, ◌≡◌, refl, inl, inr, Bool, true, false, not, List, [], ◌∷◌, str_eq, arith, ◌==◌, is_some,
  Bool-cases,
}
use blank.Prelude.Table.{All, All-weaken, All-select, find, find-absent, get, select, delete}
use blank.Directory.TenantModels.{Team, TeamMember, TenantDb}
use blank.Directory.Teams.{is_in_team, delete_team}

abbrev OtherName : Team → Team → Type 0
OtherName a b = str_eq b.name a.name ≡ false

abbrev pub DistinctNames : List Team → Type 0
DistinctNames [] = Unit {0}
DistinctNames (t ∷ ts) = All (OtherName t) ts × DistinctNames ts

abbrev OtherPair : TeamMember → TeamMember → Type 0
OtherPair a b = is_in_team a.team_id a.user_id b ≡ false

abbrev pub DistinctPairs : List TeamMember → Type 0
DistinctPairs [] = Unit {0}
DistinctPairs (m ∷ ms) = All (OtherPair m) ms × DistinctPairs ms

abbrev HasTeam : List Team → TeamMember → Type 0
HasTeam teams m = is_some (get (λ team. team.id) m.team_id teams) ≡ true

-- No two teams share a name, no user is twice in a team, and every row of a member has its team.
pub record IsTeams (t : TenantDb) : Type 0 where
  pub names : DistinctNames t.teams
  pub pairs : DistinctPairs t.team_members
  pub owned : All (HasTeam t.teams) t.team_members

DistinctNames-select :
    (p : Team → Bool) (teams : List Team) → DistinctNames teams → DistinctNames (select p teams)
DistinctNames-select p [] d = tt
DistinctNames-select p (t ∷ ts) (o, d) = elim (Bool-cases (p t)) [
  | inl kept ↦ rw kept (All-select (OtherName t) p ts o, DistinctNames-select p ts d)
  | inr dropped ↦ rw dropped (DistinctNames-select p ts d)
]

DistinctPairs-select :
    (p : TeamMember → Bool) (ms : List TeamMember) → DistinctPairs ms → DistinctPairs (select p ms)
DistinctPairs-select p [] d = tt
DistinctPairs-select p (m ∷ ms) (o, d) = elim (Bool-cases (p m)) [
  | inl kept ↦ rw kept (All-select (OtherPair m) p ms o, DistinctPairs-select p ms d)
  | inr dropped ↦ rw dropped (DistinctPairs-select p ms d)
]

get-delete_other :
    (i j : ℕ) (teams : List Team)
    → (j == i) ≡ false
    → get (λ team. team.id) j (delete (λ team. team.id) i teams) ≡ get (λ team. team.id) j teams
get-delete_other i j [] h = refl
get-delete_other i j (t ∷ ts) h = ground (arith, get-delete_other i j ts)

delete_team-owned :
    (i : ℕ) (teams : List Team) (ms : List TeamMember)
    → All (HasTeam teams) ms
    → All (HasTeam (delete (λ team. team.id) i teams)) (select (λ m. not (m.team_id == i)) ms)
delete_team-owned i teams [] h = tt
delete_team-owned i teams (m ∷ ms) (o, h) = elim (Bool-cases (m.team_id == i)) [
  | inl its ↦ rw its (delete_team-owned i teams ms h)
  | inr other ↦
      rw other (rw (get-delete_other i m.team_id teams other) o, delete_team-owned i teams ms h)
]

pub delete_team-IsTeams : (i : ℕ) (t : TenantDb) → IsTeams t → IsTeams (delete_team i t)
delete_team-IsTeams i t w = record {
  names = DistinctNames-select (λ team. not (team.id == i)) t.teams w.names;
  pairs = DistinctPairs-select (λ m. not (m.team_id == i)) t.team_members w.pairs;
  owned = delete_team-owned i t.teams t.team_members w.owned;
}

pub add_team-IsTeams :
    (team : Team) (t : TenantDb)
    → is_some (find (λ (x : Team). str_eq x.name team.name) t.teams) ≡ false
    → IsTeams t
    → IsTeams (record t { teams = team ∷ t.teams })
add_team-IsTeams team t free w = record {
  names = (find-absent (λ (x : Team). str_eq x.name team.name) t.teams free, w.names);
  pairs = w.pairs;
  owned = All-weaken t.team_members (λ m h. ground arith) w.owned;
}

pub add_member-IsTeams :
    (m : TeamMember) (t : TenantDb)
    → is_some (find (is_in_team m.team_id m.user_id) t.team_members) ≡ false
    → HasTeam t.teams m
    → IsTeams t
    → IsTeams (record t { team_members = m ∷ t.team_members })
add_member-IsTeams m t free has w = record {
  names = w.names;
  pairs = (find-absent (is_in_team m.team_id m.user_id) t.team_members free, w.pairs);
  owned = (has, w.owned);
}

pub drop_member-IsTeams :
    (i : ℕ) (t : TenantDb)
    → IsTeams t
    → IsTeams (record t { team_members = delete (λ m. m.id) i t.team_members })
drop_member-IsTeams i t w = record {
  names = w.names;
  pairs = DistinctPairs-select (λ m. not (m.id == i)) t.team_members w.pairs;
  owned = All-select (HasTeam t.teams) (λ m. not (m.id == i)) t.team_members w.owned;
}
