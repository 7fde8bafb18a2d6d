-- ===== src/Tests.antt =====
-- Concrete functions and rows for the examples: texts that stand for their own hashes, a cipher that
-- marks what it seals, and stores that are functions.
mod Directory
mod Auth
mod Tenancy
mod Ai
mod Connectors
mod Automation
mod Audit
mod Rollup
mod Teams
mod Webhooks
mod Consent
mod Modules
mod Beat
use Prim.Native.String
use blank.Prelude.{
  ℕ, ◌+◌, ◌%◌, ◌≡◌, refl, Bool, true, false, Option, none, some, List, [], ◌∷◌, String, str_eq,
  eq_iff, arith, ◌==◌, if◌then◌else◌, is_none, Result, ok, err,
}
use blank.Prelude.Text.{str_eq_refl}
use blank.Core.Config.{Env, Settings}
use blank.Core.Crypto.{KeyProvider}
use blank.Core.Counters.{Counters}
use blank.Core.Db.{Db, empty_db}
use blank.Core.Keys.{Keys}
use blank.Auth.Models.{AuthError, truncated_data, UserCredentials}
use blank.Directory.Models.{User, Membership}
use blank.Tenancy.Models.{Tenant, active}

abbrev pub settings : Settings
settings = record {
  session_ttl_hours = 24;
  invitation_ttl_hours = 72;
  login_challenge_ttl_minutes = 5;
  auth_rate_limit_attempts = 3;
  auth_rate_limit_window_seconds = 60;
}

abbrev pub env : Env
env = record {
  settings = settings;
  lower = λ s. s;
  sha256_hex = λ s. s;
  argon2_hash = λ s. s;
  argon2_verify = λ hash password. str_eq hash password;
  argon2_needs_rehash = λ hash. false;
  totp_at = λ secret step. if step % 2 == 0 then "111111" else "222222";
  is_ascii = λ text. true;
}

abbrev unsealed : List ℕ → Result AuthError (List ℕ)
unsealed [] = err truncated_data
unsealed (_ ∷ plain) = ok plain

abbrev pub kp : KeyProvider
kp = record { encrypt = λ plain. 0 ∷ plain; decrypt = unsealed }

abbrev Cell : Type 0
Cell = ℕ × Bool

abbrev at : String → (Cell → Cell) → (String → Cell) → String → Cell
at k f s j = if str_eq j k then f (s j) else s j

at_self : (k : String) (f : Cell → Cell) (s : String → Cell) → at k f s k ≡ f (s k)
at_self k f s = ground (arith, str_eq_refl k)

abbrev pub counters : Counters
counters = record {
  Store = String → Cell;
  count = λ k s. (s k).0;
  has_ttl = λ k s. (s k).1;
  incrby = λ k n. at k (λ c. (c.0 + n, c.1));
  expire = λ k t. at k (λ c. (c.0, true));
  set_ex = λ k n t. at k (λ c. (n, true));
  count-incrby_self = λ k n s. ground (arith, str_eq_refl k);
  count-incrby_other = λ j k n s h. ground arith;
  has_ttl-incrby = λ j k n s. ground arith;
  count-expire = λ j k t s. ground arith;
  has_ttl-expire_self = λ k t s. ground (arith, str_eq_refl k);
  has_ttl-expire_other = λ j k t s h. ground arith;
  count-set_ex_self = λ k n t s. ground (arith, str_eq_refl k);
  count-set_ex_other = λ j k n t s h. ground arith;
  has_ttl-set_ex_self = λ k n t s. ground (arith, str_eq_refl k);
  has_ttl-set_ex_other = λ j k n t s h. ground arith;
}

abbrev pub no_counts : String → ℕ × Bool
no_counts _ = (0, false)

abbrev pub keys : Keys
keys = record {
  Store = String → Option String;
  value = λ k s. s k;
  set_nx = λ k v ttl s.
      (is_none (s k), λ j. if str_eq j k then (if is_none (s j) then some v else s j) else s j);
  delete = λ k s j. if str_eq j k then none else s j;
  set_nx-answer = λ k v ttl s. refl;
  value-set_nx_self = λ k v ttl s. ground (arith, str_eq_refl k);
  value-set_nx_other = λ j k v ttl s h. ground arith;
  value-delete_self = λ k s. ground (arith, str_eq_refl k);
  value-delete_other = λ j k s h. ground arith;
}

abbrev pub no_keys : String → Option String
no_keys _ = none

abbrev pub ann : User
ann = record { id = 10; email = "ann@x"; display_name = none }

abbrev pub member : ℕ → ℕ → String → Membership
member id user_id role = record { id = id; user_id = user_id; tenant_id = 1; role = role }

abbrev pub acme : Tenant
acme = record { id = 1; slug = "acme"; name = "Acme"; state = active; deleted_at = none }

abbrev pub credentials_of : Bool → UserCredentials
credentials_of on = record {
  user_id = 10;
  password_hash = some "pw";
  totp_secret_encrypted = some (0 ∷ 7 ∷ []);
  totp_enabled = on;
  totp_last_counter = none;
}

abbrev pub db : Bool → Db
db on = record empty_db {
  tenants = acme ∷ [];
  users = ann ∷ [];
  memberships = member 1 10 "owner" ∷ member 2 11 "owner" ∷ [];
  credentials = credentials_of on ∷ [];
}
