-- ===== src/Directory/Routes/Trace.antt =====
-- apps/api/app/directory/router.py: what the routes on members and invitations leave committed, at
-- each commit and at the end.
use blank.Prelude.{
  ℕ, ◌≡◌, refl, sym, subst, raise, ◌⊎◌, Bool, true, false, inl, inr, Option, none, some, List, [],
  ◌∷◌, String, arith, Result, ok, err, or_raise, or_default, gets, pure, ◌>>=◌, ◌>>◌,
}
use mathlib.Core.Option
use blank.Prelude.Table.{All, get}
use blank.Core.Config.{Env}
use blank.Core.Db.{Db}
use blank.Auth.Models.{Invitation}
use blank.Audit.Log.{AuditEvent, record_audit_event}
use blank.Directory.Models.{User, Membership}
use blank.Directory.TenantModels.{TenantDb}
use blank.Directory.Service.{
  Refusal, get_membership, change_member_role, remove_member, create_invitation, revoke_invitation,
}
use blank.Directory.Routes.{
  HttpError, Sessions, Request, Printer, actor_label, control_state, open_sessions, in_control,
  if_works, commit_both, commit_failed, mail_failed, http_exception, assertion_failed,
  no_result_found, Route, event, traced, get_user, target_email, member_out, member_change_role,
  member_remove, invitation_create, invitation_revoke,
}

module _ (p : Printer) (req : Request) (db : Db) (tdb : TenantDb) where
  -- The log has one event more, which names the action, its object and who acted.
  abbrev pub Names : (action resource_id : String) → TenantDb → Type 0
  Names action resource_id t =
      (e : AuditEvent) × (t ≡ record tdb { audit = e ∷ tdb.audit })
      × (e.action ≡ action)
      × (e.resource_id ≡ resource_id)
      × (e.actor_user_id ≡ some req.user.id)

  -- Of two committed databases, the control database is unchanged or the log names the action.
  abbrev pub NeverSilent : (action resource_id : String) → Db × TenantDb → Type 0
  NeverSilent action resource_id (c, t) = (c ≡ db) ⊎ Names action resource_id t

  -- What is committed in the end: the service's result with the event; nothing, after a refusal; or, if
  -- a commit fails, nothing or the event alone.
  abbrev pub Settles :
      {A : Type 0} → (action resource_id : String) → Db → Result HttpError A → Sessions → Type 0
  Settles action resource_id after (ok a) s =
      (s.control.committed ≡ after) × Names action resource_id s.tenant.committed
  Settles action resource_id after (err mail_failed) s =
      (s.control.committed ≡ after) × Names action resource_id s.tenant.committed
  Settles action resource_id after (err commit_failed) s =
      (s.control.committed ≡ db)
      × ((s.tenant.committed ≡ tdb) ⊎ Names action resource_id s.tenant.committed)
  Settles action resource_id after (err (http_exception code)) s =
      (s.control.committed ≡ db) × (s.tenant.committed ≡ tdb)
  Settles action resource_id after (err assertion_failed) s =
      (s.control.committed ≡ db) × (s.tenant.committed ≡ tdb)
  Settles action resource_id after (err no_result_found) s =
      (s.control.committed ≡ db) × (s.tenant.committed ≡ tdb)

  abbrev pub IsTraced :
      {A : Type 0} → (action resource_id : String) → Db → Result HttpError A × Sessions → Type 0
  IsTraced action resource_id after (answer, s) =
      All (NeverSilent action resource_id) s.history × Settles action resource_id after answer s

  -- The sessions where the control session has written, and nothing is committed.
  abbrev changed : Db → Sessions
  changed c = record (open_sessions db tdb) { control = record { current = c; committed = db } }

  -- The sessions where both have written, and nothing is committed.
  abbrev written : Db → TenantDb → Sessions
  written c t = record {
    control = record { current = c; committed = db };
    tenant = record { current = t; committed = tdb };
    history = [];
  }

  commits-IsTraced :
      {A : Type 0} (tenant_commits control_commits : Bool) (action resource_id : String)
      (after : Db) (t : TenantDb) (k : Unit {0} → Route A)
      → Names action resource_id t
      → ((s : Sessions)
          → s.control.committed ≡ after
          → s.tenant.committed ≡ t
          → s.history ≡ (after, t) ∷ (db, t) ∷ []
          → IsTraced action resource_id after (k tt s))
      → IsTraced action resource_id after
          ((commit_both p req tenant_commits control_commits >>= k) (written after t))
  unfolding commit_both if_works
  commits-IsTraced true true action resource_id after t k named h = h _ refl refl refl
  commits-IsTraced true false action resource_id after t k named h =
      ((inl refl, tt), (refl, inr named))
  commits-IsTraced false control_commits action resource_id after t k named h =
      (tt, (refl, inl refl))

  -- Behind the event and the commits, whatever is done without a state.
  traced-IsTraced :
      {A : Type 0} (action resource_type resource_id : String)
      (payload : List (String × Option String)) (after : Db) (k : Unit {0} → Route A)
      → ((t : TenantDb) (s : Sessions)
          → Names action resource_id t
          → s.control.committed ≡ after
          → s.tenant.committed ≡ t
          → s.history ≡ (after, t) ∷ (db, t) ∷ []
          → IsTraced action resource_id after (k tt s))
      → IsTraced action resource_id after
          ((traced p req action resource_type resource_id payload >>= k) (changed after))
  unfolding traced event record_audit_event
  traced-IsTraced action resource_type resource_id payload after k h =
      let e : AuditEvent = record {
        id = req.audit_id;
        occurred_at = req.now;
        actor_user_id = some req.user.id;
        actor_label = actor_label req.user;
        action = action;
        resource_type = resource_type;
        resource_id = resource_id;
        payload = p.json payload;
      } in
      let t : TenantDb = record tdb { audit = e ∷ tdb.audit } in
      let named : Names action resource_id t = (e, refl, refl, refl, refl) in
      commits-IsTraced req.tenant_commits req.control_commits action resource_id after t k named
        (λ s c u h'. h t s named c u h')

  -- The service's result, its event and the two commits.
  settled :
      {A : Type 0} (a : A) (action resource_type resource_id : String)
      (payload : List (String × Option String)) (after : Db)
      → IsTraced action resource_id after
          ((traced p req action resource_type resource_id payload >> pure a) (changed after))
  settled a action resource_type resource_id payload after =
      traced-IsTraced action resource_type resource_id payload after (λ _. pure a)
        (λ t s named c u h.
          (rw h (inr named, (inl refl, tt)), (c, subst (Names action resource_id) (sym u) named)))

  -- The same, with a mail behind the commits.
  mailed :
      {A : Type 0} (sent : Bool) (a : A) (action resource_type resource_id : String)
      (payload : List (String × Option String)) (after : Db)
      → IsTraced action resource_id after (
          (traced p req action resource_type resource_id payload
              >> (if_works sent mail_failed (pure tt) >> pure a))
            (changed after))
  unfolding if_works
  mailed true a action resource_type resource_id payload after =
      settled a action resource_type resource_id payload after
  mailed false a action resource_type resource_id payload after =
      traced-IsTraced action resource_type resource_id payload after (λ _. raise mail_failed)
        (λ t s named c u h.
          (rw h (inr named, (inl refl, tt)), (c, subst (Names action resource_id) (sym u) named)))

  module _ (action resource_id : String) where
    in_control-IsTraced :
        {A B : Type 0} (code : ℕ) (m : Result Refusal A × Db) (k : A → Route B)
        → ((a : A) → m.0 ≡ ok a → IsTraced action resource_id m.1 (k a (changed m.1)))
        → IsTraced action resource_id m.1 (
            ((λ s. in_control (λ (e : Refusal). http_exception code) (λ _. m) s) >>= k)
              (changed db))
    in_control-IsTraced code (ok a, after) k h = h a refl
    in_control-IsTraced code (err e, after) k h = (tt, (refl, refl))

    or_raise-IsTraced :
        {A B : Type 0} (o : Option A) (default : A) (after : A → Db) (c : Db) (e : HttpError)
        (k : A → Route B)
        → IsTraced {A = B} action resource_id (after default) (err e, changed c)
        → ((a : A) → IsTraced action resource_id (after a) (k a (changed c)))
        → IsTraced action resource_id
            (after (or_default o default))
            ((or_raise o e >>= k) (changed c))
    or_raise-IsTraced none default after c e k refused h = refused
    or_raise-IsTraced (some a) default after c e k refused h = h a

    email_of-IsTraced :
        {B : Type 0} (o : Option User) (after : Db) (e : HttpError) (k : Option String → Route B)
        → IsTraced {A = B} action resource_id after (err e, changed db)
        → ((email : Option String) → IsTraced action resource_id after (k email (changed db)))
        → IsTraced action resource_id after
            (((or_raise o e >>= (λ user. pure (some user.email))) >>= k) (changed db))
    email_of-IsTraced none after e k refused h = refused
    email_of-IsTraced (some user) after e k refused h = h (some user.email)

    target_email-IsTraced :
        {B : Type 0} (user_id : ℕ) (target : Option Membership) (after : Db)
        (k : Option String → Route B)
        → ((o : Option String) → IsTraced action resource_id after (k o (changed db)))
        → IsTraced action resource_id after ((target_email p req user_id target >>= k) (changed db))
    unfolding target_email get_user
    target_email-IsTraced user_id none after k h = h none
    target_email-IsTraced user_id (some m) after k h =
        email_of-IsTraced (get (λ u. u.id) user_id db.users) after no_result_found k
          (tt, (refl, refl)) h

    get_user-IsTraced :
        {B : Type 0} (user_id : ℕ) (c : Db) (k : User → Route B)
        → ((u : User) → IsTraced action resource_id c (k u (changed c)))
        → IsTraced action resource_id c ((get_user p req user_id >>= k) (changed c))
    unfolding get_user
    get_user-IsTraced user_id c k h =
        or_raise-IsTraced (get (λ u. u.id) user_id c.users) req.user (λ _. c) c no_result_found k
          (tt, (refl, refl)) h

  member_remove-IsTraced :
      (user_id : ℕ)
      → IsTraced "core.member.removed"
          (p.show_id user_id)
          (remove_member req.tenant_id user_id (or_default req.role "") db).1
          (member_remove p req user_id (open_sessions db tdb))
  unfolding member_remove
  member_remove-IsTraced user_id =
      let action : String = "core.member.removed" in
      let object = p.show_id user_id in
      let target = get_membership req.tenant_id user_id db in
      let after = λ (role : String). (remove_member req.tenant_id user_id role db).1 in
      let payload = λ (found : Option Membership) (email : Option String).
        ("email", email) ∷ ("role", Option.map (λ (m : Membership). m.role) found) ∷ [] in
      let finish = λ (found : Option Membership) (email : Option String) (u : Unit {0}).
        traced p req action "membership" object (payload found email) >> pure tt in
      let remove = λ (role : String) (found : Option Membership) (email : Option String).
        in_control (λ (e : Refusal). http_exception 400) (remove_member req.tenant_id user_id role)
        >>= finish found email in
      or_raise-IsTraced action object req.role "" after db assertion_failed
        (λ role.
          gets (λ s. get_membership req.tenant_id user_id (control_state s))
          >>= (λ found. target_email p req user_id found >>= remove role found))
        (tt, (refl, refl))
        (λ role.
          target_email-IsTraced action object user_id target (after role) (remove role target)
            (λ email.
              in_control-IsTraced action object 400 (remove_member req.tenant_id user_id role db)
                (finish target email)
                (λ u _. settled tt action "membership" object (payload target email) (after role))))

  member_change_role-IsTraced :
      (user_id : ℕ) (new_role : String)
      → IsTraced "core.member.role_changed"
          (p.show_id user_id)
          (change_member_role req.tenant_id user_id new_role (or_default req.role "") db).1
          (member_change_role p req user_id new_role (open_sessions db tdb))
  unfolding member_change_role
  member_change_role-IsTraced user_id new_role =
      let action : String = "core.member.role_changed" in
      let object = p.show_id user_id in
      let previous = get_membership req.tenant_id user_id db in
      let change = change_member_role req.tenant_id user_id new_role in
      let after = λ (role : String). (change role db).1 in
      let payload = λ (found : Option Membership) (m : Membership) (user : User).
        ("email", some user.email)
        ∷ ("old_role", Option.map (λ (m : Membership). m.role) found)
        ∷ ("new_role", some m.role)
        ∷ [] in
      let finish = λ (found : Option Membership) (m : Membership) (user : User).
        traced p req action "membership" object (payload found m user)
        >> pure (member_out p req user m) in
      let with_user =
        λ (found : Option Membership) (m : Membership). get_user p req user_id >>= finish found m in
      or_raise-IsTraced action object req.role "" after db assertion_failed
        (λ role. gets (λ s. get_membership req.tenant_id user_id (control_state s)) >>= (λ found.
          in_control (λ (e : Refusal). http_exception 400) (change role) >>= with_user found))
        (tt, (refl, refl))
        (λ role. in_control-IsTraced action object 400 (change role db) (with_user previous) (λ m _.
          get_user-IsTraced action object user_id (after role) (finish previous m) (λ user.
            settled (member_out p req user m) action "membership" object (payload previous m user)
              (after role))))

  invitation_revoke-IsTraced :
      (env : Env) (invitation_id : ℕ)
      → IsTraced "core.member.invitation_revoked"
          (p.show_id invitation_id)
          (revoke_invitation env req.now req.tenant_id invitation_id db).1
          (invitation_revoke p req env invitation_id (open_sessions db tdb))
  unfolding invitation_revoke
  invitation_revoke-IsTraced env invitation_id =
      let action : String = "core.member.invitation_revoked" in
      let object = p.show_id invitation_id in
      let revoked = revoke_invitation env req.now req.tenant_id invitation_id db in
      let payload = λ (i : Invitation). ("email", some i.email) ∷ ("role", some i.role) ∷ [] in
      in_control-IsTraced action object 404 revoked
        (λ i. traced p req action "invitation" object (payload i) >> pure tt)
        (λ i _. settled tt action "invitation" object (payload i) revoked.1)

  -- The row that a new invitation adds bears the identifier that was drawn for it.
  create_invitation-id :
      (env : Env) (invitation_id : ℕ) (token email role : String) (i : Invitation) (text : String)
      → (create_invitation env req.now invitation_id token req.tenant_id email role req.role
          (some req.user.id)
          db).0
        ≡ ok (i, text)
      → i.id ≡ invitation_id
  unfolding create_invitation
  create_invitation-id env invitation_id token email role i text sent = ground arith

  invitation_create-IsTraced :
      (env : Env) (invitation_id : ℕ) (token email role : String)
      → let sent =
          create_invitation env req.now invitation_id token req.tenant_id email role req.role
            (some req.user.id)
            db in
        IsTraced "core.member.invited"
          (p.show_id invitation_id)
          sent.1
          (invitation_create p req env invitation_id token email role (open_sessions db tdb))
  unfolding invitation_create
  invitation_create-IsTraced env invitation_id token email role =
      let action : String = "core.member.invited" in
      let sent =
        create_invitation env req.now invitation_id token req.tenant_id email role req.role
          (some req.user.id) db in
      let payload = λ (i : Invitation). ("email", some i.email) ∷ ("role", some i.role) ∷ [] in
      let finish : Invitation × String → Route (Invitation × String) = λ (i, text).
        traced p req action "invitation" (p.show_id i.id) (payload i)
        >> (if_works req.mail_sent mail_failed (pure tt) >> pure (i, text)) in
      in_control-IsTraced action (p.show_id invitation_id) 400 sent finish (λ (i, text) made.
        subst (λ (n : ℕ). IsTraced action (p.show_id n) sent.1 (finish (i, text) (changed sent.1)))
          (create_invitation-id env invitation_id token email role i text made)
          (mailed {A = Invitation × String} req.mail_sent (i, text) action "invitation"
            (p.show_id i.id) (payload i) sent.1))

-- For each of the routes that change a role, remove a member, create or revoke an invitation, on
-- freshly opened sessions: after each of its commits, either the control database is as it was or
-- the tenant's log has one more event, which names the action, its object and the user who acted;
-- in the end the service's change and this event are committed, also where the mail of an invitation
-- cannot be sent. After a refusal neither database has changed; after a commit that fails the control
-- database has not, and the tenant's log has at most that event more.
pub routes-IsTraced :
    (p : Printer) (req : Request) (db : Db) (tdb : TenantDb) (user_id : ℕ) (new_role : String)
    (env : Env) (invitation_id : ℕ) (token email role : String)
    → let actor = or_default req.role "" in
      let t = req.tenant_id in
      IsTraced p req db tdb "core.member.role_changed"
        (p.show_id user_id)
        (change_member_role t user_id new_role actor db).1
        (member_change_role p req user_id new_role (open_sessions db tdb))
      × IsTraced p req db tdb "core.member.removed"
          (p.show_id user_id)
          (remove_member t user_id actor db).1
          (member_remove p req user_id (open_sessions db tdb))
      × IsTraced p req db tdb "core.member.invited"
          (p.show_id invitation_id)
          (create_invitation env req.now invitation_id token t email role req.role
            (some req.user.id)
            db).1
          (invitation_create p req env invitation_id token email role (open_sessions db tdb))
      × IsTraced p req db tdb "core.member.invitation_revoked"
          (p.show_id invitation_id)
          (revoke_invitation env req.now t invitation_id db).1
          (invitation_revoke p req env invitation_id (open_sessions db tdb))
routes-IsTraced p req db tdb user_id new_role env invitation_id token email role = (
  member_change_role-IsTraced p req db tdb user_id new_role,
  member_remove-IsTraced p req db tdb user_id,
  invitation_create-IsTraced p req db tdb env invitation_id token email role,
  invitation_revoke-IsTraced p req db tdb env invitation_id,
)
