-- ===== src/Auth/Sessions/Lifetime.antt =====
-- apps/api/app/auth/service.py: lemmas on the tokens of sessions and partial logins.
use blank.Prelude.{
  ap, ℕ, ◌+◌, ◌≤◌, ◌≡◌, refl, ◌≢◌, inl, inr, ◌&&◌, Option, none, some, String, str_eq, arith, ◌==◌,
  is_none, Option-cases, Result-cases, ok,
}
use blank.Prelude.Text.{str_eq_refl}
use blank.Prelude.Table.{find, get, find-holds, find-update_where, find-update_where_eq}
use blank.Core.Config.{Env, hours}
use blank.Core.Db.{Db}
use blank.Auth.Models.{AuthSession}
use blank.Directory.Models.{User}
use blank.Auth.Sessions.{
  session_by_token, challenge_by_token, create_session, resolve_session, revoke_session,
  revoke_all_sessions, consume_login_challenge,
}

module _ (env : Env) where
  -- A session that was created for a user of the database is found by its token until its time to
  -- live has passed, and gives that user.
  pub create_then_resolve :
      (now id later seen : ℕ) (token : String) (db : Db) {user : User}
      → get (λ u. u.id) user.id db.users ≡ some user
      → later ≤ now + hours env.settings.session_ttl_hours
      → let made = (create_session env now id token user.id db).1 in
        (s : AuthSession) × ((resolve_session env later seen token made).0 ≡ ok (some (s, user)))
        × (s.id ≡ id)
  unfolding create_session resolve_session session_by_token
  create_then_resolve now id later seen token db {user} known in_time = (
    record {
      id = id;
      user_id = user.id;
      token_hash = env.sha256_hex token;
      expires_at = now + hours env.settings.session_ttl_hours;
      last_seen_at = seen;
      revoked_at = none;
    },
    ground (arith, str_eq_refl (env.sha256_hex token)),
    refl,
  )

  -- After all sessions of a user are revoked, a token gives that user at no instant.
  pub revoke_all_sessions-locks_out :
      (now user_id later seen : ℕ) (token : String) (db : Db) {s : AuthSession} {user : User}
      → (resolve_session env later seen token (revoke_all_sessions now user_id db).1).0
        ≡ ok (some (s, user))
      → user.id ≢ user_id
  unfolding resolve_session revoke_all_sessions session_by_token
  revoke_all_sessions-locks_out now user_id later seen token db {s} {user} e same =
      let found =
        find-update_where_eq (λ r. str_eq r.token_hash (env.sha256_hex token))
          (λ r. r.user_id == user_id && is_none r.revoked_at)
          (λ r. record r { revoked_at = some now }) db.sessions (λ r. refl) in
      elim (Option-cases (find (λ r. str_eq r.token_hash (env.sha256_hex token)) db.sessions)) [
        | inl absent ↦ ground (arith, found)
        | inr (row, here) ↦
            ground (arith, found, find-holds (λ u. u.id == row.user_id) db.users {r = user})
      ]

  -- A session that is revoked, by logging out, gives no user at any instant.
  pub revoke_session-ends :
      (now later seen : ℕ) (token : String) (db : Db) {s : AuthSession}
      → session_by_token env token db ≡ some s
      → (resolve_session env later seen token (revoke_session now s db).1).0 ≡ ok none
  unfolding resolve_session revoke_session session_by_token
  revoke_session-ends now later seen token db {s} e =
      let found =
        find-update_where (λ r. str_eq r.token_hash (env.sha256_hex token)) (λ r. r.id == s.id)
          (λ r. record r { revoked_at = some now }) db.sessions {r = s} (λ r. refl) e
          (ground arith) in
      ground (arith, found)

  -- A partial login is completed once: when its token has been consumed, it is refused at every
  -- instant.
  pub consume_login_challenge_once :
      (now consumed later again : ℕ) (token : String) (db : Db) {user_id : ℕ}
      → (consume_login_challenge env now consumed token db).0 ≡ ok (some user_id)
      → (consume_login_challenge env later again token
          (consume_login_challenge env now consumed token db).1).0
        ≡ ok none
  unfolding consume_login_challenge challenge_by_token
  consume_login_challenge_once now consumed later again token db e =
      elim (Option-cases (find (λ c. str_eq c.token_hash (env.sha256_hex token)) db.challenges)) [
        | inl absent ↦ ground arith
        | inr (c, here) ↦
            let found =
              find-update_where (λ r. str_eq r.token_hash (env.sha256_hex token))
                (λ r. r.id == c.id) (λ r. record r { consumed_at = some consumed }) db.challenges
                {r = c} (λ r. refl) here (ground arith) in
            ground (arith, found)
      ]

  -- The answer depends on the partial logins alone.
  pub consume_login_challenge_same :
      (now consumed : ℕ) (token : String) (db db' : Db)
      → db'.challenges ≡ db.challenges
      → (consume_login_challenge env now consumed token db').0
        ≡ (consume_login_challenge env now consumed token db).0
  unfolding consume_login_challenge challenge_by_token
  consume_login_challenge_same now consumed token db db' same =
      let found = ap (find (λ c. str_eq c.token_hash (env.sha256_hex token))) same in
      ground (arith, found)

  -- A token that is refused is refused from then on, and nothing is written.
  pub consume_login_challenge_refused :
      (now consumed later again : ℕ) (token : String) (db : Db)
      → now ≤ later
      → (consume_login_challenge env now consumed token db).0 ≡ ok none
      → ((consume_login_challenge env later again token db).0 ≡ ok none)
        × ((consume_login_challenge env now consumed token db).1 ≡ db)
  unfolding consume_login_challenge challenge_by_token
  consume_login_challenge_refused now consumed later again token db after e = ground arith

  pub consume_login_challenge-answers :
      (now consumed : ℕ) (token : String) (db : Db)
      → (user_id : Option ℕ) × ((consume_login_challenge env now consumed token db).0 ≡ ok user_id)
  unfolding consume_login_challenge
  consume_login_challenge-answers now consumed token db =
      elim (Result-cases (consume_login_challenge env now consumed token db).0) [
        | inl answer ↦ answer
        | inr (bad, e) ↦ absurd (ground arith)
      ]
