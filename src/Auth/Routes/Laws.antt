-- ===== src/Auth/Routes/Laws.antt =====
-- apps/api/app/auth/router.py: lemmas on the login routes and the acceptance of an invitation.
use blank.Prelude.{
  ℕ, ◌+◌, ◌≤◌, ◌≡◌, refl, ap, sym, subst, ◌∙◌, [], ◌⊎◌, inl, inr, Bool, true, false, Option, none,
  some, ◌∷◌, String, arith, Option-cases, Result, Result-cases, ok, err,
}
use blank.Core.Config.{Env, hours}
use blank.Core.Counters.{Counters}
use blank.Auth.RateLimit
use blank.Auth.RateLimit.{enforce_rate_limit}
use blank.Auth.RateLimit.Window.{enforce_rate_limit-refuses}
use blank.Core.Crypto.{KeyProvider}
use blank.Core.Db.{Db}
use blank.Core.UnitOfWork.{Work, run_request}
use blank.Auth.Models.{UserCredentials}
use blank.Directory.Models.{User}
use blank.Auth.Users.{get_user_by_email, get_credentials, write_credentials, verify_password}
use blank.Auth.Sessions.{create_session, consume_login_challenge}
use blank.Auth.Sessions.Lifetime.{
  consume_login_challenge-answers, consume_login_challenge_refused, consume_login_challenge_same,
  consume_login_challenge_once,
}
use blank.Directory.Service.{accept_invitation}
use blank.Auth.Totp.Frame.{verify_second_factor-challenges}
use blank.Auth.Totp.{verify_second_factor}
use blank.Auth.Routes.{
  RouteError, http_error, uncaught, logged_in, check_password, authenticate, login_admitted,
  login_totp_admitted, second_factor_of, finish_login, limited, run_limited, login, login_totp,
  invitations_accept_admitted,
}

-- A user whose password was checked: the user of the email, with credentials and a hash that the
-- password fits.
pub record HasPassword (env : Env) (email password : String) (user : User) (c : UserCredentials)
    (db : Db) : Type 0 where
  pub known : get_user_by_email env email db ≡ some user
  pub stored : UserCredentials
  pub credentials : get_credentials user.id db ≡ some stored
  pub hash : String
  pub hashed : stored.password_hash ≡ some hash
  pub verified : env.argon2_verify hash password ≡ true
  pub same_factor : c.totp_enabled ≡ stored.totp_enabled

abbrev is_ok : {E A : Type 0} → Result E A → Bool
is_ok (ok a) = true
is_ok (err e) = false

-- The route gave an answer of its own.
abbrev is_answered : {A : Type 0} → Result RouteError A → Bool
is_answered (ok a) = true
is_answered (err (http_error _)) = true
is_answered (err (uncaught _)) = false

module _ (env : Env) (kp : KeyProvider) where
  check_password-HasPassword :
      (email password : String) (user : User) (stored : UserCredentials) (db : Db) {user' : User}
      {c : UserCredentials}
      → get_user_by_email env email db ≡ some user
      → get_credentials user.id db ≡ some stored
      → (check_password env kp user password (some stored) db).0 ≡ ok (some (user', c))
      → HasPassword env email password user' c db
  unfolding check_password verify_password
  check_password-HasPassword email password user stored db {user'} {c} known here e =
      elim (Option-cases stored.password_hash) [
        | inl missing ↦ absurd (ground arith)
        | inr (hash, hashed) ↦ record {
          known = ground arith;
          stored = stored;
          credentials = ground arith;
          hash = hash;
          hashed = hashed;
          verified = ground arith;
          same_factor = ground arith;
        }
      ]

  -- Whoever is authenticated gave the password of the email's user.
  authenticate-HasPassword :
      (email password : String) (db : Db) {user : User} {c : UserCredentials}
      → (authenticate env kp email password db).0 ≡ ok (some (user, c))
      → HasPassword env email password user c db
  unfolding authenticate
  authenticate-HasPassword email password db {user} {c} e =
      elim (Option-cases (get_user_by_email env email db)) [
        | inl absent ↦ absurd (ground arith)
        | inr (found, known) ↦ elim (Option-cases (get_credentials found.id db)) [
          | inl bare ↦ absurd (unfold check_password in ground arith)
          | inr (stored, here) ↦
              check_password-HasPassword email password found stored db known here (ground arith)
        ]
      ]

  authenticate-keeps :
      (email password : String) (db : Db)
      → ((authenticate env kp email password db).1.sessions ≡ db.sessions)
        × (is_ok (authenticate env kp email password db).0 ≡ true)
  unfolding authenticate check_password write_credentials
  authenticate-keeps email password db = ground arith

  login_admitted_sound :
      (now id : ℕ) (token email password cookie : String) (db : Db)
      → (run_request (login_admitted env kp now id token email password) db).0
        ≡ ok (logged_in cookie)
      → (user : User) × (c : UserCredentials) × HasPassword env email password user c db
        × (c.totp_enabled ≡ false)
        × (cookie ≡ token)
        × ((run_request (login_admitted env kp now id token email password) db).1.sessions
            ≡ record {
              id = id;
              user_id = user.id;
              token_hash = env.sha256_hex token;
              expires_at = now + hours env.settings.session_ttl_hours;
              last_seen_at = now;
              revoked_at = none;
            }
              ∷ db.sessions)
  unfolding login_admitted create_session
  login_admitted_sound now id token email password cookie db e =
      let keeps = authenticate-keeps email password db in
      elim (Result-cases (authenticate env kp email password db).0) [
        | inr (bad, failed) ↦ absurd (ground arith)
        | inl (result, done) ↦ elim (Option-cases result) [
          | inl refused ↦ absurd (ground arith)
          | inr ((user, c), passed) ↦
              let has =
                authenticate-HasPassword email password db {user = user} {c = c} (ground arith) in
              (user, c, has, ground arith, ground arith, ground (arith, keeps))
        ]
      ]

  -- A login with a partial login consumes it, for a user whose second factor passes, and gives the
  -- new token.
  pub login_totp_sound :
      (now id : ℕ) (token challenge_token code cookie : String) (db : Db)
      → (run_request (login_totp_admitted env kp now id token challenge_token code) db).0
        ≡ ok (logged_in cookie)
      → let consumed = consume_login_challenge env now now challenge_token db in
        (user_id : ℕ) × (consumed.0 ≡ ok (some user_id))
        × ((verify_second_factor env kp now now user_id code consumed.1).0 ≡ ok true)
        × (cookie ≡ token)
  unfolding login_totp_admitted second_factor_of finish_login create_session
  login_totp_sound now id token challenge_token code cookie db e =
      let consumed = consume_login_challenge env now now challenge_token db in
      elim (Result-cases consumed.0) [
        | inr (bad, failed) ↦ absurd (ground arith)
        | inl (found, done) ↦ elim (Option-cases found) [
          | inl refused ↦ absurd (ground arith)
          | inr (user_id, some_user) ↦ (user_id, ground arith, ground arith, ground arith)
        ]
      ]

  -- After an attempt that was answered, the token finds no partial login any more.
  login_totp_spends :
      (now later again id : ℕ) (token challenge_token code : String) (db : Db)
      → now ≤ later
      → is_answered
          (run_request (login_totp_admitted env kp now id token challenge_token code) db).0
        ≡ true
      → (consume_login_challenge env later again challenge_token
          (run_request (login_totp_admitted env kp now id token challenge_token code) db).1).0
        ≡ ok none
  unfolding login_totp_admitted second_factor_of finish_login create_session
  login_totp_spends now later again id token challenge_token code db after answered =
      let first = consume_login_challenge env now now challenge_token db in
      let end = (run_request (login_totp_admitted env kp now id token challenge_token code) db).1 in
      let (found, done) = consume_login_challenge-answers env now now challenge_token db in
      elim (Option-cases found) [
        | inl refused ↦
            let stays =
              consume_login_challenge_refused env now now later again challenge_token db after
                (ground arith) in
            let same : end ≡ db = ground (arith, stays) in rw same stays.0
        | inr (user_id, here) ↦
            let frame = verify_second_factor-challenges env kp now now user_id code first.1 in
            let spent =
              consume_login_challenge_once env now now later again challenge_token db
                {user_id = user_id} (ground arith) in
            let same : end.challenges ≡ first.1.challenges = ground (arith, frame) in
            consume_login_challenge_same env later again challenge_token first.1 end same ∙ spent
      ]

  login_totp_admitted_once :
      (now later id other_id : ℕ) (token other challenge_token code other_code : String) (db : Db)
      → now ≤ later
      → is_answered
          (run_request (login_totp_admitted env kp now id token challenge_token code) db).0
        ≡ true
      → (run_request
          (login_totp_admitted env kp later other_id other challenge_token other_code)
          (run_request (login_totp_admitted env kp now id token challenge_token code) db).1).0
        ≡ err (http_error 401)
  login_totp_admitted_once now later id other_id token other challenge_token code other_code db
        after answered =
      let end = (run_request (login_totp_admitted env kp now id token challenge_token code) db).1 in
      let spent =
        login_totp_spends now later later id token challenge_token code db after answered in
      unfold login_totp_admitted second_factor_of finish_login in ground arith

  -- An invitation that is refused leaves the database as it was, the writes that were made before
  -- the refusal included.
  pub invitations_accept_refused :
      (now new_user_id new_membership_id : ℕ) (token : String)
      (password display_name : Option String) (db : Db)
      → let (answer, after) =
          run_request
            (invitations_accept_admitted env kp now new_user_id new_membership_id token password
              display_name)
            db in
        (answer ≡ err (http_error 400)) × (after ≡ db)
        ⊎ (is_ok answer ≡ true)
          × (after
              ≡ (accept_invitation env now new_user_id new_membership_id token password display_name
                  db).1)
  unfolding invitations_accept_admitted
  invitations_accept_refused now new_user_id new_membership_id token password display_name db =
      elim (Result-cases
        (accept_invitation env now new_user_id new_membership_id token password display_name
          db).0) [
            | inl (done, e) ↦ inr (ground arith, ground arith)
            | inr (bad, e) ↦ inl (ground arith, ground arith)
          ]

module _ (env : Env) (kp : KeyProvider) (v : Counters) where
  run_limited-ok :
      {A : Type 0} (gate : Result RateLimit.HttpError (Unit {0}) × v.Store)
      (route : Work Db RouteError A) (db : Db) {a : A}
      → (run_limited env kp v gate route db).0 ≡ ok a
      → ((run_request route db).0 ≡ ok a)
        × ((run_limited env kp v gate route db).1.1 ≡ (run_request route db).1)
  unfolding run_limited limited
  run_limited-ok (ok done, store) route db e = (e, refl)
  run_limited-ok (err (RateLimit.http_error code), store) route db e = absurd (ground arith)

  refused_twice :
      {A : Type 0} (gate : Result RateLimit.HttpError (Unit {0})) (route : Work Db RouteError A)
      (db : Db)
      → ((e : RateLimit.HttpError) → gate ≡ err e → e ≡ RateLimit.http_error 429)
      → (run_request route db).0 ≡ err (http_error 401)
      → ((run_request (limited env kp gate route) db).0 ≡ err (http_error 401))
        ⊎ ((run_request (limited env kp gate route) db).0 ≡ err (http_error 429))
  unfolding limited
  refused_twice (ok done) route db only spent = inl spent
  refused_twice (err (RateLimit.http_error code)) route db only spent =
      let same : code ≡ 429 = ground (arith, only _ refl) in inr (rw same refl)

  -- A login without a partial login opens a session for the user of the email, who gave the
  -- password and has no second factor.
  pub login_sound :
      (now id : ℕ) (client_ip token email password cookie : String) (store : v.Store) (db : Db)
      → (login env kp v now id client_ip token email password (store, db)).0 ≡ ok (logged_in cookie)
      → (user : User) × (c : UserCredentials) × HasPassword env email password user c db
        × (c.totp_enabled ≡ false)
        × (cookie ≡ token)
        × ((login env kp v now id client_ip token email password (store, db)).1.1.sessions
            ≡ record {
              id = id;
              user_id = user.id;
              token_hash = env.sha256_hex token;
              expires_at = now + hours env.settings.session_ttl_hours;
              last_seen_at = now;
              revoked_at = none;
            }
              ∷ db.sessions)
  unfolding login
  login_sound now id client_ip token email password cookie store db e =
      let gate = enforce_rate_limit env v "login" client_ip (email ∷ []) store in
      let (admitted, after) =
        run_limited-ok gate (login_admitted env kp now id token email password) db e in
      let (user, c, has, factor, same, opened) =
        login_admitted_sound env kp now id token email password cookie db admitted in
      (user, c, has, factor, same, ap (λ (x : Db). x.sessions) after ∙ opened)

  -- A partial login serves one attempt: when an attempt has passed the rate limit and been answered,
  -- by a session or by a refusal, every later attempt with its token is refused, with 401, or with 429
  -- by the rate limit, whatever this has counted meanwhile.
  pub login_totp_once :
      (now later id other_id : ℕ)
      (client_ip other_ip token other challenge_token code other_code : String)
      (store meanwhile : v.Store) (db : Db)
      → now ≤ later
      → (enforce_rate_limit env v "login-totp" client_ip (challenge_token ∷ []) store).0 ≡ ok tt
      → let first = login_totp env kp v now id client_ip token challenge_token code (store, db) in
        is_answered first.0 ≡ true
        → let second =
            login_totp env kp v later other_id other_ip other challenge_token other_code
              (meanwhile, first.1.1) in
          (second.0 ≡ err (http_error 401)) ⊎ (second.0 ≡ err (http_error 429))
  unfolding login_totp run_limited limited
  login_totp_once now later id other_id client_ip other_ip token other challenge_token code
        other_code store meanwhile db after passes answered =
      let again = enforce_rate_limit env v "login-totp" other_ip (challenge_token ∷ []) meanwhile in
      let end = (run_request (login_totp_admitted env kp now id token challenge_token code) db).1 in
      let route = login_totp_admitted env kp later other_id other challenge_token other_code in
      let answered' : is_answered
            (run_request (login_totp_admitted env kp now id token challenge_token code) db).0
          ≡ true =
        subst
          (λ (gate : Result RateLimit.HttpError (Unit {0})).
            is_answered
              (run_request
                (limited env kp gate (login_totp_admitted env kp now id token challenge_token code))
                db).0
            ≡ true)
          passes answered in
      let spent =
        login_totp_admitted_once env kp now later id other_id token other challenge_token code
          other_code db after answered' in
      subst
        (λ (gate : Result RateLimit.HttpError (Unit {0})).
          let db' =
            (run_request
              (limited env kp gate (login_totp_admitted env kp now id token challenge_token code))
              db).1 in
          ((run_request (limited env kp again.0 route) db').0 ≡ err (http_error 401))
          ⊎ ((run_request (limited env kp again.0 route) db').0 ≡ err (http_error 429)))
        (sym passes)
        (refused_twice again.0 route end
          (λ e.
            enforce_rate_limit-refuses env v "login-totp" other_ip (challenge_token ∷ []) meanwhile)
          spent)
