-- ===== src/Auth/Totp.antt =====
-- apps/api/app/auth/service.py: the second factor. A secret is its bytes; the clock, the new secret
-- and the new recovery codes are arguments. The time step before the first one is left out: the
-- clock stands at least 30 s after the epoch.
pub mod Replay
pub mod Recovery
pub mod Frame
use blank.Prelude.{
  ℕ, ◌+◌, ◌-◌, ◌/◌, Bool, true, false, not, ◌&&◌, ◌||◌, Option, none, some, List, [], ◌∷◌, ◌++◌,
  String, str_eq, leb, ◌==◌, if◌then◌else◌, is_some, is_none, Result, ok, err, Exec, pure, raise,
  gets, lift, or_raise, raise_if, modify, ◌>>=◌, ◌>>◌,
}
use blank.Prelude.Table.{find, get, update, select}
use blank.Core.Config.{Env}
use blank.Core.Crypto.{KeyProvider}
use blank.Core.Db.{Db}
use blank.Auth.Models.{
  UserCredentials, RecoveryCode, AuthError, no_totp_secret, totp_already_enabled, no_enrolment,
  invalid_code, totp_not_enabled, invalid_password, uncomparable_code,
}
use blank.Auth.Users.{get_credentials, write_credentials, ensure_credentials, verify_password}

-- The time step of an instant in microseconds: `int(now.timestamp()) // totp.interval`.
unfoldable pub time_step : ℕ → ℕ
time_step now = now / 1000000 / 30

-- `credentials.totp_last_counter is not None and counter <= credentials.totp_last_counter`
unfoldable pub is_replay : Option ℕ → ℕ → Bool
is_replay none counter = false
is_replay (some last) counter = leb counter last

module _ (env : Env) (kp : KeyProvider) where
  unfoldable pub decrypt_sealed : Option (List ℕ) → Result AuthError (List ℕ)
  decrypt_sealed none = err no_totp_secret
  decrypt_sealed (some sealed) = kp.decrypt sealed

  unfoldable pub decrypt_totp_secret : UserCredentials → Result AuthError (List ℕ)
  unfolding decrypt_sealed
  decrypt_totp_secret c = decrypt_sealed c.totp_secret_encrypted

  -- The loop over the offsets; the first step whose code fits decides.
  unfoldable pub try_counters : UserCredentials → String → List ℕ → List ℕ → Exec Db AuthError Bool
  try_counters c code secret [] = pure false
  try_counters c code secret (counter ∷ counters) =
      let rest = try_counters c code secret counters in
      if not (str_eq (env.totp_at secret counter) code)
      then rest
      else (if is_replay c.totp_last_counter counter then pure false else (do
        modify (write_credentials c.user_id (λ r. record r { totp_last_counter = some counter }))
        pure true))

  -- The steps at the offsets 0, -1 and 1.
  abbrev pub window : ℕ → List ℕ
  window now = time_step now ∷ (time_step now - 1) ∷ (time_step now + 1) ∷ []

  -- The first comparison of the loop raises on a code that is not ASCII.
  unfoldable pub verify_totp_code : ℕ → UserCredentials → String → Exec Db AuthError Bool
  verify_totp_code now c code = do
    secret ← lift (decrypt_totp_secret c)
    raise_if (not (env.is_ascii code)) uncomparable_code
    try_counters c code secret (window now)

  -- The secret that pyotp chose is returned; the URI for the user's application is left out.
  pub setup_totp : ℕ → List ℕ → Exec Db AuthError (List ℕ)
  setup_totp user_id secret = do
    modify (ensure_credentials user_id)
    c ← or_raise (← gets (get_credentials user_id)) no_enrolment
    raise_if c.totp_enabled totp_already_enabled
    modify (
        write_credentials user_id (λ r. record r {
          totp_secret_encrypted = some (kp.encrypt secret);
          totp_last_counter = none;
        }))
    pure secret

  -- The rows of the new recovery codes, with their keys.
  pub recovery_rows : ℕ → List (ℕ × String) → List RecoveryCode
  recovery_rows user_id [] = []
  recovery_rows user_id ((id, code) ∷ codes) =
      record { id = id; user_id = user_id; code_hash = env.sha256_hex code; used_at = none }
      ∷ recovery_rows user_id codes

  pub activate_totp : ℕ → ℕ → String → List (ℕ × String) → Exec Db AuthError (List (ℕ × String))
  activate_totp now user_id code codes = do
    found ← gets (get_credentials user_id)
    c ← or_raise found no_enrolment
    raise_if (is_none c.totp_secret_encrypted) no_enrolment
    raise_if c.totp_enabled totp_already_enabled
    fits ← verify_totp_code now c code
    raise_if (not fits) invalid_code
    modify (write_credentials user_id (λ r. record r { totp_enabled = true }))
    modify (λ db. record db { recovery_codes = recovery_rows user_id codes ++ db.recovery_codes })
    pure codes

  -- `password_hash is None or not verify_password(password_hash, password)[0]`
  unfoldable pub is_wrong_password : Option String → String → Bool
  is_wrong_password none password = true
  is_wrong_password (some stored) password = not (verify_password env stored password).0

  unfoldable pub disable_totp : ℕ → String → Exec Db AuthError (Unit {0})
  disable_totp user_id password = do
    found ← gets (get_credentials user_id)
    c ← or_raise found totp_not_enabled
    raise_if (not c.totp_enabled) totp_not_enabled
    raise_if (is_wrong_password c.password_hash password) invalid_password
    modify (
        write_credentials user_id (λ r. record r {
          totp_enabled = false;
          totp_secret_encrypted = none;
          totp_last_counter = none;
        }))
    modify (λ db. record db {
      recovery_codes = select (λ r. not (r.user_id == user_id)) db.recovery_codes;
    })

  unfoldable pub is_usable_code : ℕ → String → RecoveryCode → Bool
  is_usable_code user_id code r =
      r.user_id == user_id && str_eq r.code_hash (env.sha256_hex code) && is_none r.used_at

  unfoldable pub use_recovery_code : ℕ → ℕ → String → Exec Db AuthError Bool
  use_recovery_code now user_id code = do
    found ← gets (λ db. find (is_usable_code user_id code) db.recovery_codes)
    elim found [
      | none ↦ pure false
      | some r ↦ (do
        modify (λ db. record db {
          recovery_codes =
              update (λ x. x.id) r.id (λ x. record x { used_at = some now }) db.recovery_codes;
        })
        pure true)
    ]

  unfoldable pub verify_second_factor :
      (now used : ℕ) (user_id : ℕ) (code : String) → Exec Db AuthError Bool
  verify_second_factor now used user_id code = do
    found ← gets (get_credentials user_id)
    elim found [
      | none ↦ pure false
      | some c ↦ if not c.totp_enabled then pure false else (do
        fits ← verify_totp_code now c code
        if fits then pure true else use_recovery_code used user_id code)
    ]
