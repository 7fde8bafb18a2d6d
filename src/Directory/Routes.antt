-- ===== src/Directory/Routes.antt =====
-- apps/api/app/directory/router.py: the routes on members and invitations. A request has a session on
-- the control database and one on the tenant's; the caller has the route's permission. Identifiers
-- of new rows, the new token and the clock are arguments.
pub mod Trace
use blank.Prelude.{
  ℕ, Bool, true, false, Option, none, some, List, [], ◌∷◌, String, str_eq, if◌then◌else◌, Result,
  ok, err, Exec, pure, raise, gets, or_raise, modify, ◌>>=◌, ◌>>◌,
}
use mathlib.Core.Option
use blank.Prelude.Table.{get}
use blank.Core.Config.{Env}
use blank.Core.Db.{Db}
use blank.Core.UnitOfWork.{Pending, within}
use blank.Auth.Models.{Invitation}
use blank.Audit.Log.{AuditEvent, record_audit_event}
use blank.Directory.Models.{User, Membership}
use blank.Directory.TenantModels.{TenantDb}
use blank.Directory.Service.{
  Refusal, get_membership, change_member_role, remove_member, create_invitation, revoke_invitation,
}

-- `HTTPException` by its status code, a failed `assert`, the `NoResultFound` of `get_one`, a commit that
-- the server refuses, and a mail that cannot be sent.
pub data HttpError : Type 0 where
  http_exception : ℕ → HttpError
  assertion_failed no_result_found commit_failed mail_failed : HttpError

-- The two sessions, and the committed databases after each commit so far, newest first.
pub record Sessions : Type 0 where
  pub control : Pending Db
  pub tenant : Pending TenantDb
  pub history : List (Db × TenantDb)

abbrev pub Route : Type 0 → Type 0
Route A = Exec Sessions HttpError A

abbrev pub open_sessions : Db → TenantDb → Sessions
open_sessions db tdb = record {
  control = record { current = db; committed = db };
  tenant = record { current = tdb; committed = tdb };
  history = [];
}

abbrev pub control_state : Sessions → Db
control_state s = s.control.current

abbrev pub tenant_state : Sessions → TenantDb
tenant_state s = s.tenant.current

-- A function of the service, on the control session.
abbrev pub in_control : {E A : Type 0} → (E → HttpError) → Exec Db E A → Route A
in_control f m s = let (r, w) = within f m s.control in (r, record s { control = w })

abbrev pub modify_tenant : (TenantDb → TenantDb) → Route (Unit {0})
modify_tenant f s = (ok tt, record s { tenant = record s.tenant { current = f s.tenant.current } })

abbrev pub commit_tenant : Route (Unit {0})
commit_tenant s = (
  ok tt,
  record s {
    tenant = record { current = s.tenant.current; committed = s.tenant.current };
    history = (s.control.committed, s.tenant.current) ∷ s.history;
  },
)

abbrev pub commit_control : Route (Unit {0})
commit_control s = (
  ok tt,
  record s {
    control = record { current = s.control.current; committed = s.control.current };
    history = (s.control.current, s.tenant.committed) ∷ s.history;
  },
)

-- A step that may fail from outside.
pub if_works : Bool → HttpError → Route (Unit {0}) → Route (Unit {0})
if_works true e step = step
if_works false e step = raise e

-- What a request brings along: the context of the tenant, the user, and what is new; and how the
-- outside behaves: whether its commits and its mail succeed.
pub record Request : Type 0 where
  pub tenant_id : ℕ
  pub role : Option String
  pub user : User
  pub now : ℕ
  pub audit_id : ℕ
  pub tenant_commits : Bool
  pub control_commits : Bool
  pub mail_sent : Bool

-- `display_name or email`: an empty name is no name.
abbrev pub actor_label : User → String
actor_label user = elim user.display_name [
  | none ↦ user.email
  | some name ↦ if str_eq name "" then user.email else name
]

-- What an answer or an invitation tells of a member.
pub record MemberOut : Type 0 where
  pub user_id : ℕ
  pub email : String
  pub display_name : Option String
  pub role : String

-- The texts of an identifier and of a payload, as Python prints them.
pub record Printer : Type 0 where
  pub show_id : ℕ → String
  pub json : List (String × Option String) → String

module _ (p : Printer) (req : Request) where
  unfoldable pub event :
      (action resource_type resource_id : String)
      → List (String × Option String)
      → TenantDb
      → TenantDb
  event action resource_type resource_id payload tdb = record tdb {
    audit =
        record_audit_event req.audit_id req.now action resource_type resource_id (p.json payload)
          (some req.user.id) (actor_label req.user) tdb.audit;
  }

  pub commit_both : (tenant_commits control_commits : Bool) → Route (Unit {0})
  unfolding if_works
  commit_both tenant_commits control_commits = do
    if_works tenant_commits commit_failed commit_tenant
    if_works control_commits commit_failed commit_control

  -- `record_audit_event` in the tenant's session, then its commit, then that of the control session.
  pub traced :
      (action resource_type resource_id : String) → List (String × Option String) → Route (Unit {0})
  unfolding event commit_both
  traced action resource_type resource_id payload = do
    modify_tenant (event action resource_type resource_id payload)
    commit_both req.tenant_commits req.control_commits

  pub get_user : ℕ → Route User
  get_user user_id s = or_raise (get (λ u. u.id) user_id s.control.current.users) no_result_found s

  member_out : User → Membership → MemberOut
  member_out user m = record {
    user_id = user.id;
    email = user.email;
    display_name = user.display_name;
    role = m.role;
  }

  pub member_change_role : (user_id : ℕ) (role : String) → Route MemberOut
  unfolding get_user traced member_out
  member_change_role user_id role = do
    actor_role ← or_raise req.role assertion_failed
    previous ← gets (λ s. get_membership req.tenant_id user_id (control_state s))
    membership ←
        in_control (λ _. http_exception 400)
          (change_member_role req.tenant_id user_id role actor_role)
    user ← get_user user_id
    traced "core.member.role_changed" "membership" (p.show_id user_id) (
        ("email", some user.email)
        ∷ ("old_role", Option.map (λ (m : Membership). m.role) previous)
        ∷ ("new_role", some membership.role)
        ∷ [])
    pure (member_out user membership)

  -- The email of the user of a membership, if there is one.
  pub target_email : ℕ → Option Membership → Route (Option String)
  unfolding get_user
  target_email user_id none = pure none
  target_email user_id (some m) = do user ← get_user user_id; pure (some user.email)

  pub member_remove : (user_id : ℕ) → Route (Unit {0})
  unfolding traced target_email
  member_remove user_id = do
    actor_role ← or_raise req.role assertion_failed
    target ← gets (λ s. get_membership req.tenant_id user_id (control_state s))
    email ← target_email user_id target
    in_control (λ _. http_exception 400) (remove_member req.tenant_id user_id actor_role)
    traced "core.member.removed" "membership" (p.show_id user_id)
        (("email", email) ∷ ("role", Option.map (λ (m : Membership). m.role) target) ∷ [])
    pure tt

  -- The mail is sent after the commits. The answer's URL is made from the token.
  pub invitation_create :
      (env : Env) (invitation_id : ℕ) (token email role : String) → Route (Invitation × String)
  unfolding traced if_works
  invitation_create env invitation_id token email role = do
    (invitation, token) ←
        in_control (λ _. http_exception 400)
          (create_invitation env req.now invitation_id token req.tenant_id email role req.role
            (some req.user.id))
    traced "core.member.invited" "invitation" (p.show_id invitation.id)
        (("email", some invitation.email) ∷ ("role", some invitation.role) ∷ [])
    if_works req.mail_sent mail_failed (pure tt)
    pure (invitation, token)

  pub invitation_revoke : (env : Env) (invitation_id : ℕ) → Route (Unit {0})
  unfolding traced
  invitation_revoke env invitation_id = do
    invitation ←
        in_control (λ _. http_exception 404)
          (revoke_invitation env req.now req.tenant_id invitation_id)
    traced "core.member.invitation_revoked" "invitation" (p.show_id invitation_id)
        (("email", some invitation.email) ∷ ("role", some invitation.role) ∷ [])
    pure tt
