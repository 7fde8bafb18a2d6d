-- ===== src/Directory/Teams/Members.antt =====
-- apps/api/app/directory/router.py: whom the list of a team's members shows.
use blank.Prelude.{
  ℕ, ◌≡◌, refl, inl, inr, Bool, true, false, ◌&&◌, Option, none, some, List, [], ◌∷◌, arith, ◌==◌,
  is_some, Bool-cases, Result, ok, err, gets, or_raise, ◌>>=◌, sym,
}
use blank.Prelude.Table.{
  All, All-weaken, All-select_weaken, All-everywhere, All-append, any, select,
}
use blank.Core.Db.{Db}
use blank.Directory.Models.{User, Membership}
use blank.Directory.TenantModels.{Team, TeamMember, TenantDb}
use blank.Directory.Routes.{
  HttpError, http_exception, Sessions, Route, Request, Printer, MemberOut, open_sessions,
  control_state, tenant_state,
}
use blank.Directory.Teams.{team_by_id, is_in_team, is_listed, joined, join, team_members_list}

abbrev is_of : (tenant_id user_id : ℕ) → Membership → Bool
is_of tenant_id user_id m = m.user_id == user_id && m.tenant_id == tenant_id

-- A listed user is in the team, and a member of the tenant.
abbrev pub IsShown : (tenant_id team_id : ℕ) → Db → TenantDb → MemberOut → Type 0
IsShown tenant_id team_id db t r =
    (any (is_in_team team_id r.user_id) t.team_members ≡ true)
    × (any (is_of tenant_id r.user_id) db.memberships ≡ true)

itself : (rows : List Membership) → All (λ m. any (is_of m.tenant_id m.user_id) rows ≡ true) rows
itself [] = tt
itself (m ∷ ms) = (ground arith, All-weaken ms (λ x h. ground arith) (itself ms))

listed-in_team :
    (p : Printer) (req : Request) (team_id i : ℕ) (rows : List TeamMember)
    → is_listed p req (select (λ m. m.team_id == team_id) rows) i ≡ true
    → any (is_in_team team_id i) rows ≡ true
unfolding is_listed
listed-in_team p req team_id i [] h = cc
listed-in_team p req team_id i (m ∷ ms) h = ground (arith, listed-in_team p req team_id i ms)

module _ (p : Printer) (req : Request) (team_id : ℕ) (db : Db) (t : TenantDb) where
  abbrev Listed : User → Type 0
  Listed u = any (is_in_team team_id u.id) t.team_members ≡ true

  joined-IsShown :
      (users : List User) (m : Membership)
      → any (is_of req.tenant_id m.user_id) db.memberships ≡ true
      → All Listed users
      → All (IsShown req.tenant_id team_id db t) (joined p req users m)
  unfolding joined
  joined-IsShown [] m h l = tt
  joined-IsShown (u ∷ users) m h (lu, l) = elim (Bool-cases (u.id == m.user_id)) [
    | inl same ↦
        let eq : u.id ≡ m.user_id = ground arith in
        rw same ((lu, rw eq h), joined-IsShown users m h l)
    | inr other ↦ rw other (joined-IsShown users m h l)
  ]

  join-IsShown :
      (users : List User) (rows : List Membership)
      → All (λ m. any (is_of req.tenant_id m.user_id) db.memberships ≡ true) rows
      → All Listed users
      → All (IsShown req.tenant_id team_id db t) (join p req users rows)
  unfolding join
  join-IsShown users [] h l = tt
  join-IsShown users (m ∷ rows) (hm, h) l =
      All-append (IsShown req.tenant_id team_id db t) (joined p req users m) (join p req users rows)
        (joined-IsShown users m hm l) (join-IsShown users rows h l)

  -- What an answer tells: members that are shown, or that there is no such team.
  abbrev pub Tells : Result HttpError (List MemberOut) × Sessions → Type 0
  Tells (ok rows, s) = All (IsShown req.tenant_id team_id db t) rows
  Tells (err e, s) = (e ≡ http_exception 404) × (is_some (team_by_id team_id t) ≡ false)

  or_raise-Tells :
      (o : Option Team) (k : Team → Route (List MemberOut))
      → (is_some o ≡ is_some (team_by_id team_id t))
      → ((team : Team) → Tells (k team (open_sessions db t)))
      → Tells ((or_raise o (http_exception 404) >>= k) (open_sessions db t))
  or_raise-Tells none k e h = (refl, sym e)
  or_raise-Tells (some team) k e h = h team

  -- The list of a team's members shows only users that are in the team and are still members of the
  -- tenant; the only error is that there is no such team.
  pub team_members_list-Tells : Tells (team_members_list p req team_id (open_sessions db t))
  unfolding team_members_list
  team_members_list-Tells =
      let rows = select (λ (m : TeamMember). m.team_id == team_id) t.team_members in
      let users = select (λ (u : User). is_listed p req rows u.id) db.users in
      let members = select (λ (m : Membership). m.tenant_id == req.tenant_id) db.memberships in
      let in_team =
        All-select_weaken (λ (u : User). Unit {0}) Listed (λ u. is_listed p req rows u.id) db.users
          (λ u _ h. listed-in_team p req team_id u.id t.team_members h)
          (All-everywhere (λ u. Unit {0}) db.users (λ u. tt)) in
      let of_tenant =
        All-select_weaken
          (λ (m : Membership). any (is_of m.tenant_id m.user_id) db.memberships ≡ true)
          (λ m. any (is_of req.tenant_id m.user_id) db.memberships ≡ true)
          (λ m. m.tenant_id == req.tenant_id) db.memberships
          (λ m h same. let eq : m.tenant_id ≡ req.tenant_id = ground arith in rw (← eq) h)
          (itself db.memberships) in
      or_raise-Tells (team_by_id team_id t)
        (λ team.
          gets
            (λ s. select (λ (m : TeamMember). m.team_id == team_id) (tenant_state s).team_members)
          >>= (λ team_members. gets (λ s.
              join p req
                (select (λ (u : User). is_listed p req team_members u.id) (control_state s).users)
                (select (λ (m : Membership). m.tenant_id == req.tenant_id)
                  (control_state s).memberships))))
        refl (λ team. join-IsShown users members of_tenant in_team)
