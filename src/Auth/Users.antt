-- ===== src/Auth/Users.antt =====
-- apps/api/app/auth/service.py: users by email, and passwords.
pub mod Laws
use blank.Prelude.{
  ℕ, Bool, true, false, Option, none, some, ◌∷◌, String, str_eq, ◌==◌, if◌then◌else◌, is_none, Exec,
  pure, gets, modify, ◌>>=◌, ◌>>◌,
}
use blank.Prelude.Table.{find, get, update}
use blank.Core.Config.{Env}
use blank.Core.Db.{Db}
use blank.Auth.Models.{UserCredentials}
use blank.Directory.Models.{User}

abbrev pub new_credentials : ℕ → UserCredentials
new_credentials user_id = record {
  user_id = user_id;
  password_hash = none;
  totp_secret_encrypted = none;
  totp_enabled = false;
  totp_last_counter = none;
}

unfoldable pub get_credentials : ℕ → Db → Option UserCredentials
get_credentials user_id db = get (λ c. c.user_id) user_id db.credentials

-- A row that stands in the session is mutated in place.
unfoldable pub write_credentials : ℕ → (UserCredentials → UserCredentials) → Db → Db
write_credentials user_id f db = record db {
  credentials = update (λ c. c.user_id) user_id f db.credentials;
}

-- `if credentials is None: credentials = UserCredentials(...); session.add(credentials)`
unfoldable pub ensure_credentials : ℕ → Db → Db
unfolding get_credentials
ensure_credentials user_id db =
    if is_none (get_credentials user_id db)
    then record db { credentials = new_credentials user_id ∷ db.credentials }
    else db

module _ (env : Env) where
  unfoldable pub get_user_by_email : String → Db → Option User
  get_user_by_email email db = find (λ u. str_eq (env.lower u.email) (env.lower email)) db.users

  -- argon2 raises when the password does not fit the hash; the second part asks for a new hash.
  unfoldable pub verify_password : String → String → Bool × Bool
  verify_password password_hash password =
      if env.argon2_verify password_hash password
      then (true, env.argon2_needs_rehash password_hash)
      else (false, false)

  unfoldable pub set_password : {E : Type 0} → ℕ → String → Exec Db E (Unit {0})
  set_password user_id password = do
    modify (ensure_credentials user_id)
    modify (
        write_credentials user_id
          (λ c. record c { password_hash = some (env.argon2_hash password) }))
