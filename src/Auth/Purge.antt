-- ===== src/Auth/Purge.antt =====
-- apps/api/app/auth/tasks.py: the periodic purge of dead sessions, partial logins and invitations.
use blank.Prelude.{
  ℕ, ◌≤◌, ◌≡◌, Bool, not, ◌&&◌, ◌||◌, Option, none, some, String, str_eq, arith, ltb, if◌then◌else◌,
  is_some, is_none,
}
use blank.Prelude.Table.{find, count, select, find-select}
use blank.Core.Config.{Env}
use blank.Core.Db.{Db}
use blank.Auth.Models.{AuthSession, LoginChallenge, Invitation}
use blank.Directory.Service.{is_acceptable}
use blank.Auth.Sessions.{
  session_by_token, challenge_by_token, resolve_session, consume_login_challenge,
}

is_dead_session : ℕ → AuthSession → Bool
is_dead_session now s = ltb s.expires_at now || is_some s.revoked_at

is_dead_challenge : ℕ → LoginChallenge → Bool
is_dead_challenge now c = ltb c.expires_at now

is_dead_invitation : ℕ → Invitation → Bool
is_dead_invitation now i = ltb i.expires_at now && is_none i.accepted_at

-- `purge_expired_auth_rows`, without its counts.
pub purge_expired_auth_rows : ℕ → Db → Db
purge_expired_auth_rows now db = record db {
  sessions = select (λ s. not (is_dead_session now s)) db.sessions;
  challenges = select (λ c. not (is_dead_challenge now c)) db.challenges;
  invitations = select (λ i. not (is_dead_invitation now i)) db.invitations;
}

-- The invitation of a query, if it can be accepted.
abbrev pub if_acceptable : Env → ℕ → Option Invitation → Option Invitation
if_acceptable env now none = none
if_acceptable env now (some i) = if is_acceptable env now i then some i else none

-- A purge is invisible from its instant on: a token opens the same session, completes the same
-- partial login and finds the same acceptable invitation as if the rows had not been deleted. The
-- hashes of tokens are unique, as the tables declare.
pub purge_expired_auth_rows_invisible :
    (env : Env) (now later again : ℕ) (token : String) (db : Db)
    → now ≤ later
    → count (λ s. str_eq s.token_hash (env.sha256_hex token)) db.sessions ≤ 1
    → count (λ c. str_eq c.token_hash (env.sha256_hex token)) db.challenges ≤ 1
    → count (λ x. str_eq x.token_hash (env.sha256_hex token)) db.invitations ≤ 1
    → ((resolve_session env later again token (purge_expired_auth_rows now db)).0
        ≡ (resolve_session env later again token db).0)
      × ((consume_login_challenge env later again token (purge_expired_auth_rows now db)).0
          ≡ (consume_login_challenge env later again token db).0)
      × (if_acceptable env later (
            find
              (λ x. str_eq x.token_hash (env.sha256_hex token))
              (purge_expired_auth_rows now db).invitations)
          ≡ if_acceptable env later
              (find (λ x. str_eq x.token_hash (env.sha256_hex token)) db.invitations))
unfolding resolve_session consume_login_challenge session_by_token challenge_by_token
    purge_expired_auth_rows is_dead_session is_dead_challenge is_dead_invitation is_acceptable
purge_expired_auth_rows_invisible env now later again token db after one_s one_c one_i =
    let s =
      find-select (λ s. str_eq s.token_hash (env.sha256_hex token))
        (λ s. not (is_dead_session now s)) db.sessions one_s in
    let c =
      find-select (λ c. str_eq c.token_hash (env.sha256_hex token))
        (λ c. not (is_dead_challenge now c)) db.challenges one_c in
    let v =
      find-select (λ i. str_eq i.token_hash (env.sha256_hex token))
        (λ i. not (is_dead_invitation now i)) db.invitations one_i in
    (ground (arith, s), ground (arith, c), ground (arith, v))
