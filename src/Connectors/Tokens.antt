-- ===== src/Connectors/Tokens.antt =====
-- apps/api/app/connectors/service.py and client_base.py: the tokens of a connection, refreshed under
-- its lock, and revoked. The providers' endpoints are reached over HTTP, a parameter.
pub mod Refresh
pub mod Outcome
use Prim.Native.String
use blank.Prelude.{
  ℕ, ◌+◌, Bool, true, false, not, ◌||◌, Option, none, some, List, [], ◌∷◌, String, str_eq, leb,
  ◌==◌, if◌then◌else◌, or_default, Result, ok, err, Exec, map_err,
}
use blank.Core.Config.{seconds}
use blank.Core.Counters.{Counters}
use blank.Core.Crypto.{KeyProvider}
use blank.Core.Keys.{Keys}
use blank.Auth.Models.{AuthError}
use blank.Connectors.Throttle.{
  AttemptError, ThrottleError, Throttled, response_error, other_error, attempt_error,
  provider_unavailable, run_with_backoff, acquire_lock, release_lock, wait_for_lock,
}

abbrev pub expiry_skew_seconds : ℕ
expiry_skew_seconds = 60

pub data ConnectionStatus : Type 0 where
  active needs_reconsent revoked failing : ConnectionStatus

abbrev pub is_active : ConnectionStatus → Bool
is_active active = true
is_active needs_reconsent = false
is_active revoked = false
is_active failing = false

-- `ConnectorConnection`, the columns that the tokens' life reads and writes.
pub record Connection : Type 0 where
  pub id : ℕ
  pub status : ConnectionStatus
  pub access_token_enc : List ℕ
  pub refresh_token_enc : List ℕ
  pub access_token_expires_at : ℕ
  pub last_error : Option String
  pub health_checked_at : Option ℕ

pub record TokenBundle : Type 0 where
  pub access_token : String
  pub expires_in : ℕ
  pub refresh_token : Option String

-- `str.encode` and `bytes.decode`.
pub record Utf8 : Type 0 where
  pub encode : String → List ℕ
  pub decode : List ℕ → String

-- The answer of a token endpoint: the status, the `error` of its JSON object ("" if there is none),
-- whether its body is a JSON object, and the fields of that which are texts; `expires_in` is `some none`
-- if it is there but is no integer.
pub record TokenResponse : Type 0 where
  pub status_code : ℕ
  pub error : String
  pub is_object : Bool
  pub access_token : Option String
  pub refresh_token : Option String
  pub expires_in : Option (Option ℕ)

pub data GrantError : Type 0 where
  invalid_grant : GrantError
  connector_error : GrantError
  http_error : GrantError
  -- The `ValueError`, `TypeError` or `AttributeError` of an answer that cannot be read.
  unreadable_answer : GrantError

-- `int(payload.get("expires_in", 3600))`
abbrev lifetime : Option (Option ℕ) → Option ℕ
lifetime none = some 3600
lifetime (some seconds) = seconds

bundle_for : String → Option String → Option ℕ → Result (AttemptError GrantError) TokenBundle
bundle_for token refresh_token none = err (other_error unreadable_answer)
bundle_for token refresh_token (some expires_in) =
    ok (record { access_token = token; expires_in = expires_in; refresh_token = refresh_token })

bundle_of : Option String → TokenResponse → Result (AttemptError GrantError) TokenBundle
unfolding bundle_for
bundle_of none response = err (other_error connector_error)
bundle_of (some token) response =
    if str_eq token ""
    then err (other_error connector_error)
    else bundle_for token response.refresh_token (lifetime response.expires_in)

-- `_parse_token_response`
unfoldable pub parse_token_response : TokenResponse → Result (AttemptError GrantError) TokenBundle
unfolding bundle_of
parse_token_response response =
    if response.status_code == 200
    then (if response.is_object
        then bundle_of response.access_token response
        else err (other_error unreadable_answer))
    else (if str_eq response.error "invalid_grant"
        then err (other_error invalid_grant)
        else err (response_error response.status_code none))

module _ (kp : KeyProvider) (utf8 : Utf8) where
  pub encrypt_token : String → List ℕ
  encrypt_token token = kp.encrypt (utf8.encode token)

  unfoldable pub decoded : Result AuthError (List ℕ) → Result AuthError String
  decoded (ok bytes) = ok (utf8.decode bytes)
  decoded (err e) = err e

  unfoldable pub decrypt_token : List ℕ → Result AuthError String
  unfolding decoded
  decrypt_token sealed = decoded (kp.decrypt sealed)

  -- An empty refresh token counts as none.
  pub kept_refresh_token : Option String → List ℕ → List ℕ
  kept_refresh_token none sealed = sealed
  kept_refresh_token (some token) sealed = if str_eq token "" then sealed else encrypt_token token

  unfoldable pub apply_token_bundle : ℕ → TokenBundle → Connection → Connection
  unfolding kept_refresh_token
  apply_token_bundle now bundle c = record c {
    access_token_enc = encrypt_token bundle.access_token;
    refresh_token_enc = kept_refresh_token bundle.refresh_token c.refresh_token_enc;
    access_token_expires_at = now + seconds bundle.expires_in;
    status = active;
    last_error = none;
    health_checked_at = some now;
  }

unfoldable pub access_token_expiring : ℕ → ℕ → Connection → Bool
access_token_expiring now lead c = leb c.access_token_expires_at (now + lead)

-- The connection in the session and in the database, the keys, the budget with the HTTP side, and
-- the rows `connector.reconsent_required` of the audit.
pub record TokenState (C K S : Type 0) : Type 0 where
  pub connection : Connection
  pub database : Connection
  pub keys : K
  pub network : Throttled C S
  pub audit : List ℕ

pub data RefreshError : Type 0 where
  lock_busy : RefreshError
  bad_token : AuthError → RefreshError
  grant_failed : ThrottleError GrantError → RefreshError
  not_active : RefreshError

-- `grant token` posts the refresh token to the endpoint and parses the answer.
module _ (kp : KeyProvider) (utf8 : Utf8) (v : Counters) (keys : Keys) {S : Type 0}
    (post : String → Exec S (AttemptError GrantError) TokenResponse) (budget_key : ℕ → String)
    (lock_name : ℕ → String) (requests_per_minute : ℕ) where
  abbrev pub State : Type 0
  State = TokenState v.Store keys.Store S

  -- `refresh_token_grant`
  pub refresh_token_grant : String → Exec S (AttemptError GrantError) TokenBundle
  refresh_token_grant token s =
      let (r, s') = post token s in
      (elim r [ ok response ↦ parse_token_response response | err e ↦ err e ], s')

  marked : ℕ → String → Connection → Connection
  marked now message c = record c { last_error = some message; health_checked_at = some now }

  -- The `except` clauses and what follows the `try`, but for the lock.
  pub settle_grant :
      ℕ → Result (ThrottleError GrantError) TokenBundle → State → Result RefreshError Bool × State
  unfolding marked
  settle_grant now (ok bundle) s =
      (ok true, record s { connection = apply_token_bundle kp utf8 now bundle s.connection })
  settle_grant now (err (attempt_error (other_error invalid_grant))) s = (
    ok false,
    record s {
      connection =
          record (marked now "Refresh token invalidé par le provider (invalid_grant)."
            s.connection) { status = needs_reconsent };
      audit = s.connection.id ∷ s.audit;
    },
  )
  settle_grant now (err (attempt_error (other_error connector_error))) s =
      (err (grant_failed (attempt_error (other_error connector_error))), s)
  settle_grant now (err (attempt_error (other_error unreadable_answer))) s =
      (err (grant_failed (attempt_error (other_error unreadable_answer))), s)
  settle_grant now (err (attempt_error (other_error http_error))) s = (
    err (grant_failed (attempt_error (other_error http_error))),
    record s { connection = marked now "Refresh échoué : HTTPError" s.connection },
  )
  settle_grant now (err (attempt_error (response_error status delay))) s = (
    err (grant_failed (attempt_error (response_error status delay))),
    record s { connection = marked now "Refresh échoué : ProviderResponseError" s.connection },
  )
  settle_grant now (err provider_unavailable) s = (
    err (grant_failed provider_unavailable),
    record s { connection = marked now "Refresh échoué : ProviderUnavailable" s.connection },
  )

  -- The body of the `try`.
  unfoldable pub grant_with : ℕ → Result AuthError String → State → Result RefreshError Bool × State
  unfolding settle_grant
  grant_with now (err e) s = (err (bad_token e), s)
  grant_with now (ok refresh_token) s =
      let (r, network) =
        run_with_backoff v (budget_key s.connection.id) requests_per_minute
          (refresh_token_grant refresh_token) s.network in
      settle_grant now r (record s { network = network })

  -- The `try` with its `finally`: the lock is released in every case.
  unfoldable pub refresh_locked : ℕ → String → State → Result RefreshError Bool × State
  unfolding grant_with
  refresh_locked now token s =
      let (r, s') = grant_with now (decrypt_token kp utf8 s.connection.refresh_token_enc) s in
      (r, record s' { keys = release_lock keys (lock_name s.connection.id) token s'.keys })

  -- `refresh_connection` with `block=False`.
  unfoldable pub refresh_skipping : ℕ → String → State → Result RefreshError Bool × State
  unfolding refresh_locked
  refresh_skipping now token s =
      let (got, k) = acquire_lock keys (lock_name s.connection.id) token s.keys in
      elim got [
        | none ↦ (ok false, record s { keys = k })
        | some mine ↦ refresh_locked now mine (record s { keys = k })
      ]

  -- Once the lock is obtained with `block=True`: the row is read again, and refreshed if it still
  -- expires.
  pub refresh_obtained : ℕ → String → State → Result RefreshError Bool × State
  unfolding refresh_locked
  refresh_obtained now mine s =
      let s' = record s { connection = s.database } in
      if access_token_expiring now (seconds expiry_skew_seconds) s'.connection
      then refresh_locked now mine s'
      else (
        ok false,
        record s' { keys = release_lock keys (lock_name s'.connection.id) mine s'.keys },
      )

  -- `refresh_connection` with `block=True`, after at most twenty tries for the lock.
  pub refresh_waiting :
      ℕ → (ℕ → String) → (ℕ → keys.Store → keys.Store) → State → Result RefreshError Bool × State
  unfolding refresh_obtained
  refresh_waiting now token others s =
      let (got, k) = wait_for_lock keys (lock_name s.connection.id) token others 20 s.keys in
      elim got [
        | none ↦ (err lock_busy, record s { keys = k })
        | some mine ↦ refresh_obtained now mine (record s { keys = k })
      ]

  token_of : State → Result RefreshError String × State
  token_of s = (map_err bad_token (decrypt_token kp utf8 s.connection.access_token_enc), s)

  -- The refresh is committed; a connection that asks for a new consent keeps its old token.
  after_refresh : Result RefreshError Bool → State → Result RefreshError String × State
  unfolding token_of
  after_refresh (err e) s = (err e, s)
  after_refresh (ok renewed) s = token_of (record s { database = s.connection })

  -- client_base.py: `fresh_access_token`
  pub fresh_access_token :
      ℕ → (ℕ → String) → (ℕ → keys.Store → keys.Store) → State → Result RefreshError String × State
  unfolding token_of after_refresh
  fresh_access_token now token others s =
      if not (is_active s.connection.status)
      then (err not_active, s)
      else (if access_token_expiring now (seconds expiry_skew_seconds) s.connection
          then (let (r, s') = refresh_waiting now token others s in after_refresh r s')
          else token_of s)

-- `revoke_connection`: whatever the provider answers, the tokens are gone.
pub revoke_connection : ℕ → Connection → Connection
revoke_connection now c = record c {
  access_token_enc = [];
  refresh_token_enc = [];
  status = revoked;
  last_error = none;
  health_checked_at = some now;
}
