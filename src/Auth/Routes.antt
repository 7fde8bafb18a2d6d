-- ===== src/Auth/Routes.antt =====
-- apps/api/app/auth/router.py: the login routes and the acceptance of an invitation, each on a
-- session of its own. The logins go through the rate limit first. The audit event of an acceptance,
-- which is written after the commit, is left out.
pub mod Laws
use blank.Prelude.{
  ℕ, Bool, true, false, not, Option, none, some, List, [], ◌∷◌, String, str_eq, if◌then◌else◌,
  Result, ok, err, Exec, pure, raise, gets, modify, raise_if, ◌>>=◌, ◌>>◌,
}
use blank.Core.Config.{Env}
use blank.Core.Counters.{Counters}
use blank.Auth.RateLimit
use blank.Auth.RateLimit.{enforce_rate_limit}
use blank.Core.Crypto.{KeyProvider}
use blank.Core.Db.{Db}
use blank.Core.UnitOfWork.{Work, within, commit, run_request}
use blank.Auth.Models.{UserCredentials, Invitation, AuthError}
use blank.Auth.Users.{get_user_by_email, get_credentials, write_credentials, verify_password}
use blank.Auth.Sessions.{create_session, create_login_challenge, consume_login_challenge}
use blank.Auth.Totp.{verify_second_factor}
use blank.Directory.Models.{User}
use blank.Directory.Service.{Refusal, accept_invitation}

-- `HTTPException`, by its status code, and an error that no handler catches.
pub data RouteError : Type 0 where
  http_error : ℕ → RouteError
  uncaught : AuthError → RouteError

-- What a login answers: the session cookie, or the token of a partial login.
pub data LoginAnswer : Type 0 where
  logged_in : String → LoginAnswer
  totp_required : String → LoginAnswer

module _ (env : Env) (kp : KeyProvider) where
  -- The password of a user with credentials is checked, and hashed again if its parameters are
  -- outdated.
  unfoldable pub check_password :
      User → String → Option UserCredentials → Exec Db AuthError (Option (User × UserCredentials))
  check_password user password none = pure none
  check_password user password (some c) = elim c.password_hash [
    | none ↦ pure none
    | some stored ↦
        let (valid, needs_rehash) = verify_password env stored password in
        if not valid
        then pure none
        else (let renewed = record c { password_hash = some (env.argon2_hash password) } in
            if needs_rehash
            then (modify (
                  write_credentials c.user_id
                    (λ r. record r { password_hash = some (env.argon2_hash password) }))
                >> pure (some (user, renewed)))
            else pure (some (user, c)))
  ]

  -- The check against a dummy hash, which only takes time, is left out.
  unfoldable pub authenticate :
      String → String → Exec Db AuthError (Option (User × UserCredentials))
  authenticate email password = do
    found ← gets (get_user_by_email env email)
    elim found [
      | none ↦ pure none
      | some user ↦ (do c ← gets (get_credentials user.id); check_password user password c)
    ]

  -- `login`, behind the rate limit.
  unfoldable pub login_admitted :
      (now id : ℕ) (token email password : String) → Work Db RouteError LoginAnswer
  login_admitted now id token email password = do
    result ← within uncaught (authenticate email password)
    elim result [
      | none ↦ raise (http_error 401)
      | some (user, c) ↦
          if c.totp_enabled
          then (do
            challenge ← within uncaught (create_login_challenge env now id token user.id)
            commit
            pure (totp_required challenge))
          else (do
            cookie ← within uncaught (create_session env now id token user.id)
            commit
            pure (logged_in cookie))
    ]

  unfoldable pub second_factor_of : ℕ → Option ℕ → String → Exec Db AuthError Bool
  second_factor_of now none code = pure false
  second_factor_of now (some user_id) code = verify_second_factor env kp now now user_id code

  -- The consumed partial login stays consumed: it is committed before the refusal.
  unfoldable pub finish_login :
      (now id : ℕ) (token : String) → Option ℕ → Bool → Work Db RouteError LoginAnswer
  finish_login now id token (some user_id) true = do
    cookie ← within uncaught (create_session env now id token user_id)
    commit
    pure (logged_in cookie)
  finish_login now id token _ _ = do commit; raise (http_error 401)

  -- `login_totp`, behind the rate limit.
  unfoldable pub login_totp_admitted :
      (now id : ℕ) (token challenge_token code : String) → Work Db RouteError LoginAnswer
  login_totp_admitted now id token challenge_token code = do
    user_id ← within uncaught (consume_login_challenge env now now challenge_token)
    fits ← within uncaught (second_factor_of now user_id code)
    finish_login now id token user_id fits

  -- `invitations_accept`, behind the rate limit.
  pub invitations_accept_admitted :
      (now new_user_id new_membership_id : ℕ) (token : String)
      (password display_name : Option String)
      → Work Db RouteError (User × Invitation)
  invitations_accept_admitted now new_user_id new_membership_id token password display_name = do
    accepted ←
        within (λ _. http_error 400)
          (accept_invitation env now new_user_id new_membership_id token password display_name)
    commit
    pure accepted

  -- The rate limit raises before the route begins.
  unfoldable pub limited :
      {A : Type 0}
      → Result RateLimit.HttpError (Unit {0})
      → Work Db RouteError A
      → Work Db RouteError A
  limited (ok _) route = route
  limited (err (RateLimit.http_error code)) route = raise (http_error code)

  module _ (v : Counters) where
    -- A request on the server of the counters and the database, after its gate.
    unfoldable pub run_limited :
        {A : Type 0}
        → Result RateLimit.HttpError (Unit {0}) × v.Store
        → Work Db RouteError A
        → Db
        → Result RouteError A × (v.Store × Db)
    unfolding limited
    run_limited (gate, store) route db =
        let (answer, db') = run_request (limited gate route) db in (answer, (store, db'))

    -- `POST /auth/login`
    unfoldable pub login :
        (now id : ℕ) (client_ip token email password : String)
        → v.Store × Db
        → Result RouteError LoginAnswer × (v.Store × Db)
    unfolding run_limited
    login now id client_ip token email password (store, db) =
        run_limited (enforce_rate_limit env v "login" client_ip (email ∷ []) store)
          (login_admitted now id token email password) db

    -- `POST /auth/login/totp`
    unfoldable pub login_totp :
        (now id : ℕ) (client_ip token challenge_token code : String)
        → v.Store × Db
        → Result RouteError LoginAnswer × (v.Store × Db)
    unfolding run_limited
    login_totp now id client_ip token challenge_token code (store, db) =
        run_limited (enforce_rate_limit env v "login-totp" client_ip (challenge_token ∷ []) store)
          (login_totp_admitted now id token challenge_token code) db

    -- `POST /auth/invitations/accept`
    pub invitations_accept :
        (now new_user_id new_membership_id : ℕ) (client_ip token : String)
        (password display_name : Option String)
        → v.Store × Db
        → Result RouteError (User × Invitation) × (v.Store × Db)
    unfolding run_limited invitations_accept_admitted
    invitations_accept now new_user_id new_membership_id client_ip token password display_name
          (store, db) =
        run_limited (enforce_rate_limit env v "invitation-accept" client_ip (token ∷ []) store)
          (invitations_accept_admitted now new_user_id new_membership_id token password
            display_name)
          db
