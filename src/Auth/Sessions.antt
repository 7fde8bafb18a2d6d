-- ===== src/Auth/Sessions.antt =====
-- apps/api/app/auth/service.py: server sessions and partial logins. A token is stored by its
-- hash. The clock, the new token and the new row key are arguments; a function that reads the
-- clock twice has two instants.
pub mod Lifetime
use blank.Prelude.{
  ℕ, ◌+◌, Bool, true, false, not, ◌&&◌, ◌||◌, Option, none, some, ◌∷◌, String, str_eq, ltb, ◌==◌,
  if◌then◌else◌, is_some, is_none, Exec, pure, gets, modify, ◌>>=◌, ◌>>◌,
}
use blank.Prelude.Table.{find, get, update, update_where, select}
use blank.Core.Config.{Env, hours, minutes}
use blank.Core.Db.{Db}
use blank.Auth.Models.{AuthSession, LoginChallenge, AuthError}
use blank.Directory.Models.{User}

module _ (env : Env) where
  unfoldable pub session_by_token : String → Db → Option AuthSession
  session_by_token token db = find (λ s. str_eq s.token_hash (env.sha256_hex token)) db.sessions

  unfoldable pub challenge_by_token : String → Db → Option LoginChallenge
  challenge_by_token token db = find (λ c. str_eq c.token_hash (env.sha256_hex token)) db.challenges

  unfoldable pub create_session :
      (now id : ℕ) (token : String) (user_id : ℕ) → Exec Db AuthError String
  create_session now id token user_id = do
    let added : AuthSession = record {
      id = id;
      user_id = user_id;
      token_hash = env.sha256_hex token;
      expires_at = now + hours env.settings.session_ttl_hours;
      last_seen_at = now;
      revoked_at = none;
    }
    modify (λ db. record db { sessions = added ∷ db.sessions })
    pure token

  -- The session can be used: neither revoked nor expired.
  abbrev pub is_live : ℕ → AuthSession → Bool
  is_live now s = is_none s.revoked_at && not (ltb s.expires_at now)

  unfoldable pub touch : ℕ → AuthSession → Db → Db
  touch seen s db = record db {
    sessions = update (λ r. r.id) s.id (λ r. record r { last_seen_at = seen }) db.sessions;
  }

  unfoldable pub resolve_session :
      (now seen : ℕ) (token : String) → Exec Db AuthError (Option (AuthSession × User))
  unfolding touch
  resolve_session now seen token = do
    found ← gets (session_by_token token)
    elim found [
      | none ↦ pure none
      | some s ↦ if not (is_live now s) then pure none else (do
        user ← gets (λ db. get (λ u. u.id) s.user_id db.users)
        elim user [
          | none ↦ pure none
          | some u ↦ (do modify (touch seen s); pure (some (record s { last_seen_at = seen }, u)))
        ])
    ]

pub revoke_session : ℕ → AuthSession → Exec Db AuthError (Unit {0})
revoke_session now s = modify (λ db. record db {
  sessions = update (λ r. r.id) s.id (λ r. record r { revoked_at = some now }) db.sessions;
})

unfoldable pub revoke_all_sessions : ℕ → ℕ → Exec Db AuthError (Unit {0})
revoke_all_sessions now user_id = modify (λ db. record db {
  sessions =
      update_where (λ r. r.user_id == user_id && is_none r.revoked_at)
        (λ r. record r { revoked_at = some now }) db.sessions;
})

-- The partial login can be completed: neither consumed nor expired.
abbrev pub is_open : ℕ → LoginChallenge → Bool
is_open now c = is_none c.consumed_at && not (ltb c.expires_at now)

unfoldable pub consume : ℕ → LoginChallenge → Db → Db
consume now c db = record db {
  challenges = update (λ r. r.id) c.id (λ r. record r { consumed_at = some now }) db.challenges;
}

module _ (env : Env) where
  unfoldable pub create_login_challenge :
      (now id : ℕ) (token : String) (user_id : ℕ) → Exec Db AuthError String
  create_login_challenge now id token user_id = do
    let added : LoginChallenge = record {
      id = id;
      user_id = user_id;
      token_hash = env.sha256_hex token;
      expires_at = now + minutes env.settings.login_challenge_ttl_minutes;
      consumed_at = none;
    }
    modify (λ db. record db { challenges = added ∷ db.challenges })
    pure token

  unfoldable pub consume_login_challenge :
      (now consumed : ℕ) (token : String) → Exec Db AuthError (Option ℕ)
  unfolding consume
  consume_login_challenge now consumed token = do
    found ← gets (challenge_by_token env token)
    elim found [
      | none ↦ pure none
      | some c ↦
          if not (is_open now c)
          then pure none
          else (modify (consume consumed c) >> pure (some c.user_id))
    ]
