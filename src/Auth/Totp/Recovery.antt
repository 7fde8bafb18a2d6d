-- ===== src/Auth/Totp/Recovery.antt =====
-- apps/api/app/auth/service.py: enrolment, recovery codes and the end of the second factor.
use blank.Prelude.{
  ap, ◌∙◌, ℕ, ◌≤◌, ◌≡◌, refl, inl, inr, true, false, none, some, List, ◌++◌, String, str_eq, arith,
  ◌==◌, Option-cases, ok,
}
use blank.Prelude.Text.{str_eq_refl}
use blank.Prelude.Table.{find, count, find-update_spent, count-select-not}
use blank.Core.Config.{Env}
use blank.Core.Crypto.{KeyProvider}
use blank.Core.Db.{Db}
use blank.Auth.Models.{UserCredentials, RecoveryCode}
use blank.Auth.Users.{get_credentials, write_credentials, ensure_credentials}
use blank.Auth.Users.Laws.{get_credentials-write, get_credentials-user}
use blank.Auth.Totp.{
  time_step, is_replay, decrypt_totp_secret, try_counters, verify_totp_code, setup_totp,
  recovery_rows, activate_totp, disable_totp, is_usable_code, use_recovery_code,
  verify_second_factor,
}

module _ (env : Env) (kp : KeyProvider) where
  usable_hash :
      (user_id : ℕ) (code : String) (x : RecoveryCode)
      → is_usable_code env kp user_id code x ≡ true
      → str_eq x.code_hash (env.sha256_hex code) ≡ true
  unfolding is_usable_code
  usable_hash user_id code x h = ground arith

  used_not_usable :
      (now user_id : ℕ) (code : String) (x : RecoveryCode)
      → is_usable_code env kp user_id code (record x { used_at = some now }) ≡ false
  unfolding is_usable_code
  used_not_usable now user_id code x = ground arith

  -- A recovery code whose hash stands in one row at most is used once: after it has been accepted, it
  -- is refused.
  pub use_recovery_code_once :
      (now later user_id : ℕ) (code : String) (db : Db)
      → count (λ r. str_eq r.code_hash (env.sha256_hex code)) db.recovery_codes ≤ 1
      → (use_recovery_code env kp now user_id code db).0 ≡ ok true
      → (use_recovery_code env kp later user_id code
          (use_recovery_code env kp now user_id code db).1).0
        ≡ ok false
  unfolding use_recovery_code
  use_recovery_code_once now later user_id code db one e =
      elim (Option-cases (find (is_usable_code env kp user_id code) db.recovery_codes)) [
        | inl absent ↦ absurd (ground arith)
        | inr (r, here) ↦
            let gone =
              find-update_spent (is_usable_code env kp user_id code)
                (λ x. str_eq x.code_hash (env.sha256_hex code)) (λ x. x.id == r.id)
                (λ x. record x { used_at = some now }) db.recovery_codes (usable_hash user_id code)
                (used_not_usable now user_id code) one here (ground arith) in
            ground (arith, gone)
      ]

  -- Once the second factor is disabled, no code at any instant passes it, and none of the user's
  -- recovery codes is left.
  pub disable_totp-ends :
      (now used user_id : ℕ) (password code : String) (db : Db)
      → (disable_totp env kp user_id password db).0 ≡ ok tt
      → ((verify_second_factor env kp now used user_id code
            (disable_totp env kp user_id password db).1).0
          ≡ ok false)
        × (count
              (λ r. r.user_id == user_id)
              (disable_totp env kp user_id password db).1.recovery_codes
            ≡ 0)
  unfolding disable_totp verify_second_factor get_credentials write_credentials
  disable_totp-ends now used user_id password code db e =
      elim (Option-cases (get_credentials user_id db)) [
        | inl absent ↦ absurd (ground arith)
        | inr (c, here) ↦
            let after =
              get_credentials-write user_id
                (λ r. record r {
                  totp_enabled = false;
                  totp_secret_encrypted = none;
                  totp_last_counter = none;
                })
                db (λ r. refl) here in
            (
              ground (arith, after),
              ground (
                arith,
                count-select-not (λ (r : RecoveryCode). r.user_id == user_id) db.recovery_codes,
              ),
            )
      ]

  -- Credentials with a secret that was set up and has not been used.
  abbrev IsEnrolling : List ℕ → UserCredentials → Type 0
  IsEnrolling secret c =
      (c.totp_secret_encrypted ≡ some (kp.encrypt secret))
      × (c.totp_last_counter ≡ none)
      × (c.totp_enabled ≡ false)

  setup_totp-enrols :
      (user_id : ℕ) (secret : List ℕ) (db : Db)
      → (setup_totp env kp user_id secret db).0 ≡ ok secret
      → (c : UserCredentials) × (get_credentials user_id (setup_totp env kp user_id secret db).1
          ≡ some c)
        × IsEnrolling secret c
        × ((setup_totp env kp user_id secret db).1.recovery_codes ≡ db.recovery_codes)
  unfolding setup_totp write_credentials ensure_credentials
  setup_totp-enrols user_id secret db e =
      let db₀ = ensure_credentials user_id db in
      let f = λ (r : UserCredentials). record r {
        totp_secret_encrypted = some (kp.encrypt secret);
        totp_last_counter = none;
      } in
      elim (Option-cases (get_credentials user_id db₀)) [
        | inl absent ↦ absurd (ground arith)
        | inr (c, here) ↦
            let after = get_credentials-write user_id f db₀ (λ r. refl) here in
            (f c, ground (arith, after), (refl, refl, ground arith), ground arith)
      ]

  verify_enrolling :
      (now : ℕ) (secret : List ℕ) (c : UserCredentials) (db : Db)
      → ((plain : List ℕ) → kp.decrypt (kp.encrypt plain) ≡ ok plain)
      → env.is_ascii (env.totp_at secret (time_step now)) ≡ true
      → IsEnrolling secret c
      → verify_totp_code env kp now c (env.totp_at secret (time_step now)) db ≡ (
        ok true,
        write_credentials c.user_id (λ r. record r { totp_last_counter = some (time_step now) }) db,
      )
  unfolding verify_totp_code try_counters is_replay decrypt_totp_secret
  verify_enrolling now secret c db law ascii (sealed, fresh, off) =
      ground (arith, law secret, ascii, str_eq_refl (env.totp_at secret (time_step now)))

  activate_enrolling :
      (now user_id : ℕ) (secret : List ℕ) (codes : List (ℕ × String)) (db : Db)
      {c : UserCredentials}
      → ((plain : List ℕ) → kp.decrypt (kp.encrypt plain) ≡ ok plain)
      → env.is_ascii (env.totp_at secret (time_step now)) ≡ true
      → get_credentials user_id db ≡ some c
      → IsEnrolling secret c
      → let (answer, after) =
          activate_totp env kp now user_id (env.totp_at secret (time_step now)) codes db in
        (d : UserCredentials) × (answer ≡ ok codes)
        × (get_credentials user_id after ≡ some d)
        × (d.totp_enabled ≡ true)
        × (after.recovery_codes ≡ recovery_rows env kp user_id codes ++ db.recovery_codes)
  unfolding activate_totp write_credentials get_credentials
  activate_enrolling now user_id secret codes db {c} law ascii here enrolling =
      let step = λ (r : UserCredentials). record r { totp_last_counter = some (time_step now) } in
      let on = λ (r : UserCredentials). record r { totp_enabled = true } in
      let verified = verify_enrolling now secret c db law ascii enrolling in
      let db₁ = write_credentials user_id step db in
      let first = get_credentials-write user_id step db (λ r. refl) here in
      let second = get_credentials-write user_id on db₁ (λ r. refl) first in
      let own = get_credentials-user user_id db here in
      (
        on (step c),
        ground (arith, verified, own),
        ground (arith, verified, own, second),
        refl,
        ground (arith, verified, own),
      )

  -- A secret that was set up is activated by its code of the moment, and then a user who had no
  -- second factor has one, since the codes of pyotp are digits.
  pub setup_then_activate :
      (now user_id : ℕ) (secret : List ℕ) (codes : List (ℕ × String)) (db : Db)
      → ((plain : List ℕ) → kp.decrypt (kp.encrypt plain) ≡ ok plain)
      → env.is_ascii (env.totp_at secret (time_step now)) ≡ true
      → (setup_totp env kp user_id secret db).0 ≡ ok secret
      → let pending = (setup_totp env kp user_id secret db).1 in
        let (answer, after) =
          activate_totp env kp now user_id (env.totp_at secret (time_step now)) codes pending in
        (c : UserCredentials) × (answer ≡ ok codes)
        × (get_credentials user_id after ≡ some c)
        × (c.totp_enabled ≡ true)
        × (after.recovery_codes ≡ recovery_rows env kp user_id codes ++ db.recovery_codes)
  setup_then_activate now user_id secret codes db law ascii e =
      let (c, here, enrolling, same) = setup_totp-enrols user_id secret db e in
      let (d, answer, after, on, rows) =
        activate_enrolling now user_id secret codes (setup_totp env kp user_id secret db).1 law
          ascii here enrolling in
      (d, answer, after, on, rows ∙ ap (λ rest. recovery_rows env kp user_id codes ++ rest) same)
