-- ===== src/Tests/Auth.antt =====
-- The theorems of authentication for one user.
use blank.Prelude.{
  ℕ, ◌+◌, ◌≤◌, ◌<◌, ◌-◌, ◌≡◌, ◌≢◌, refl, ◌⊎◌, true, false, not, ◌||◌, none, some, List, [], ◌∷◌,
  String, str_eq, arith, max, err,
}
use blank.Prelude.Table.{find, get}
use blank.Core.Config.{hours, seconds}
use blank.Core.Db.{Db}
use blank.Auth.Models.{UserCredentials, AuthSession, LoginChallenge, OAuthIdentity, google}
use blank.Auth.Users.{get_user_by_email, get_credentials, write_credentials, verify_password}
use blank.Auth.Permissions.{empty_registry, role_has_permission}
use blank.Auth.Permissions.Grants.{core_roles_ordered}
use blank.Auth.Sessions.{
  session_by_token, challenge_by_token, create_session, resolve_session, revoke_all_sessions,
  consume, consume_login_challenge, touch,
}
use blank.Auth.Sessions.Lifetime.{revoke_all_sessions-locks_out}
use blank.Auth.Totp.{
  time_step, is_replay, decrypt_sealed, decrypt_totp_secret, try_counters, verify_totp_code,
  verify_second_factor,
}
use blank.Auth.Totp.Replay.{verify_totp_code_once}
use blank.Auth.Purge.{purge_expired_auth_rows, if_acceptable, purge_expired_auth_rows_invisible}
use blank.Auth.RateLimit.{
  hit, enforce_keys, enforce_rate_limit, limit_keys, limit_key, identifier_keys,
}
use blank.Auth.RateLimit.Window.{passed, passed-le-attempts}
use blank.Auth.Routes.{
  check_password, authenticate, limited, run_limited, login_admitted, login_totp_admitted, login,
  second_factor_of, finish_login, login_totp, http_error,
}
use blank.Auth.Routes.Laws.{HasPassword, login_sound, login_totp_once}
use blank.Auth.OAuth.{
  OAuthUserInfo, find_identity, link_identity, complete_login, complete_login_sound,
}
use blank.Directory.Models.{User}
use blank.Tests.{env, kp, db, ann, credentials_of, counters, no_counts}

abbrev session : AuthSession
session = record {
  id = 3;
  user_id = 10;
  token_hash = "s0";
  expires_at = 900;
  last_seen_at = 0;
  revoked_at = none;
}

abbrev bob : User
bob = record { id = 11; email = "bob@x"; display_name = none }

abbrev cookie : String
cookie = "s2"

abbrev other : AuthSession
other = record session { id = 4; user_id = 11; token_hash = "s1" }

abbrev two_users : Db
two_users = record (db false) { users = ann ∷ bob ∷ []; sessions = session ∷ other ∷ [] }

revoke_all_sessions-locks_out_example : bob.id ≢ ann.id
unfolding resolve_session session_by_token revoke_all_sessions touch
revoke_all_sessions-locks_out_example =
    revoke_all_sessions-locks_out env 5 10 6 6 "s1" two_users refl

abbrev challenge : LoginChallenge
challenge = record {
  id = 3;
  user_id = 10;
  token_hash = "c0";
  expires_at = 900000000;
  consumed_at = none;
}

abbrev pending : Db
pending = record (db true) { challenges = challenge ∷ [] }

abbrev pending_session : Db
pending_session = record pending {
  sessions = session ∷ record session { id = 4; token_hash = "s1"; expires_at = 2 } ∷ [];
}

login_totp_once_example :
    let first =
      login_totp env kp counters 60000000 8 "ip" "s2" "c0" "111111" (no_counts, pending) in
    let second =
      login_totp env kp counters 70000000 9 "ip" "s3" "c0" "111111" (no_counts, first.1.1) in
    (second.0 ≡ err (http_error 401)) ⊎ (second.0 ≡ err (http_error 429))
unfolding login_totp run_limited limited login_totp_admitted enforce_rate_limit enforce_keys hit
    limit_keys limit_key identifier_keys second_factor_of finish_login consume_login_challenge
    challenge_by_token consume verify_second_factor verify_totp_code try_counters is_replay
    decrypt_totp_secret decrypt_sealed time_step get_credentials write_credentials create_session
    hours seconds
login_totp_once_example =
    login_totp_once env kp counters 60000000 70000000 8 9 "ip" "ip" "s2" "s3" "c0" "111111" "111111"
      no_counts no_counts pending (omega arith) refl refl

login_sound_example :
    (user : User) × (c : UserCredentials) × HasPassword env "ann@x" "pw" user c (db false)
    × (c.totp_enabled ≡ false)
    × (cookie ≡ "s2")
    × ((login env kp counters 5 8 "ip" "s2" "ann@x" "pw" (no_counts, db false)).1.1.sessions
        ≡ record {
          id = 8;
          user_id = user.id;
          token_hash = "s2";
          expires_at = 5 + hours 24;
          last_seen_at = 5;
          revoked_at = none;
        }
          ∷ [])
unfolding login run_limited limited login_admitted enforce_rate_limit enforce_keys hit limit_keys
    limit_key identifier_keys authenticate check_password get_user_by_email get_credentials
    verify_password create_session
login_sound_example =
    login_sound env kp counters 5 8 "ip" "s2" "ann@x" "pw" "s2" no_counts (db false) refl

abbrev used : UserCredentials
used = record (credentials_of true) { totp_last_counter = some 2 }

verify_totp_code_once_example :
    (k k' : ℕ) × (used.totp_last_counter ≡ some k)
    × (k < k')
    × (k ≤ time_step 60000000 + 1)
    × (time_step 90000000 - 1 ≤ k')
    × (get_credentials 10
          (verify_totp_code env kp 90000000 used "222222"
            (verify_totp_code env kp 60000000 (credentials_of true) "111111" (db true)).1).1
        ≡ some (record (credentials_of true) { totp_last_counter = some k' }))
unfolding verify_totp_code try_counters is_replay decrypt_totp_secret decrypt_sealed time_step
    get_credentials write_credentials seconds
verify_totp_code_once_example =
    verify_totp_code_once env kp 10 60000000 90000000 "111111" "222222" (db true) refl refl refl
      refl

abbrev requests : List (List String)
requests = ("ip" ∷ "ann" ∷ []) ∷ ("ip" ∷ []) ∷ ("ip" ∷ []) ∷ ("ip" ∷ []) ∷ []

passed-le-attempts_example : passed env counters requests no_counts + 0 ≤ max 3 0
passed-le-attempts_example =
    passed-le-attempts env counters "ip" requests no_counts (refl, (refl, (refl, (refl, tt))))

abbrev claimed : OAuthUserInfo
claimed = record { provider = google; subject = "g1"; email = "ann@x"; email_verified = true }

complete_login_sound_example :
    ((complete_login env 5 claimed (db false)).1.users ≡ (db false).users)
    × (i : OAuthIdentity) × (find_identity google "g1" (complete_login env 5 claimed (db false)).1
        ≡ some i)
    × (i.user_id ≡ 10)
    × ((get (λ u. u.id) i.user_id (db false).users ≡ some ann)
        ⊎ (get_user_by_email env "ann@x" (db false) ≡ some ann) × (true ≡ true))
unfolding complete_login link_identity find_identity get_user_by_email
complete_login_sound_example = complete_login_sound env 5 claimed (db false) refl

purge_expired_auth_rows_invisible_example :
    ((resolve_session env 6 6 "s0" (purge_expired_auth_rows 5 pending_session)).0
      ≡ (resolve_session env 6 6 "s0" pending_session).0)
    × ((consume_login_challenge env 6 6 "s0" (purge_expired_auth_rows 5 pending_session)).0
        ≡ (consume_login_challenge env 6 6 "s0" pending_session).0)
    × (if_acceptable env 6 (
          find
            (λ x. str_eq x.token_hash "s0")
            (purge_expired_auth_rows 5 pending_session).invitations)
        ≡ if_acceptable env 6 (find (λ x. str_eq x.token_hash "s0") pending_session.invitations))
purge_expired_auth_rows_invisible_example =
    purge_expired_auth_rows_invisible env 5 6 6 "s0" pending_session (omega arith) (omega arith)
      (omega arith) (omega arith)

core_roles_ordered_example :
    ((not (role_has_permission empty_registry "member" "core.members.read")
        || role_has_permission empty_registry "admin" "core.members.read")
      ≡ true)
    × (role_has_permission empty_registry "admin" "core.members.read"
        ≡ role_has_permission empty_registry "owner" "core.members.read")
core_roles_ordered_example = core_roles_ordered "core.members.read"
