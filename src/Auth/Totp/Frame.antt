-- ===== src/Auth/Totp/Frame.antt =====
-- apps/api/app/auth/service.py: lemmas on the tables that the second factor leaves alone.
use blank.Prelude.{ℕ, ◌≡◌, refl, inl, inr, List, [], ◌∷◌, String, arith, Option-cases, Result-cases}
use blank.Core.Config.{Env}
use blank.Core.Crypto.{KeyProvider}
use blank.Core.Db.{Db}
use blank.Auth.Models.{UserCredentials}
use blank.Auth.Users.{get_credentials, write_credentials}
use blank.Auth.Totp.{
  try_counters, decrypt_totp_secret, window, verify_totp_code, use_recovery_code,
  verify_second_factor,
}

module _ (env : Env) (kp : KeyProvider) where
  try_counters-challenges :
      (c : UserCredentials) (code : String) (secret counters : List ℕ) (db : Db)
      → (try_counters env kp c code secret counters db).1.challenges ≡ db.challenges
  unfolding try_counters write_credentials
  try_counters-challenges c code secret [] db = refl
  try_counters-challenges c code secret (k ∷ ks) db =
      ground (arith, try_counters-challenges c code secret ks db)

  verify_totp_code-challenges :
      (now : ℕ) (c : UserCredentials) (code : String) (db : Db)
      → (verify_totp_code env kp now c code db).1.challenges ≡ db.challenges
  unfolding verify_totp_code
  verify_totp_code-challenges now c code db = elim (Result-cases (decrypt_totp_secret env kp c)) [
    | inl (secret, opened) ↦
        ground (arith, try_counters-challenges c code secret (window env kp now) db)
    | inr (bad, refused) ↦ ground arith
  ]

  use_recovery_code-challenges :
      (now user_id : ℕ) (code : String) (db : Db)
      → (use_recovery_code env kp now user_id code db).1.challenges ≡ db.challenges
  unfolding use_recovery_code
  use_recovery_code-challenges now user_id code db = ground arith

  -- The second factor writes no partial login.
  pub verify_second_factor-challenges :
      (now used user_id : ℕ) (code : String) (db : Db)
      → (verify_second_factor env kp now used user_id code db).1.challenges ≡ db.challenges
  unfolding verify_second_factor
  verify_second_factor-challenges now used user_id code db =
      elim (Option-cases (get_credentials user_id db)) [
        | inl absent ↦ ground arith
        | inr (c, here) ↦
            let after = (verify_totp_code env kp now c code db).1 in
            ground (
              arith,
              verify_totp_code-challenges now c code db,
              use_recovery_code-challenges used user_id code after,
            )
      ]
