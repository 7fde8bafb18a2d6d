-- ===== src/Auth/Models.antt =====
-- apps/api/app/auth/models.py: credentials, recovery codes, sessions, partial logins, OAuth
-- identities and invitations. The columns that the server fills are left out, but for
-- `last_seen_at`, which the code writes.
use blank.Prelude.{ℕ, Bool, Option, List, String}

pub data OAuthProvider : Type 0 where
  google microsoft : OAuthProvider

pub record UserCredentials : Type 0 where
  pub user_id : ℕ
  pub password_hash : Option String
  pub totp_secret_encrypted : Option (List ℕ)
  pub totp_enabled : Bool
  pub totp_last_counter : Option ℕ

pub record RecoveryCode : Type 0 where
  pub id : ℕ
  pub user_id : ℕ
  pub code_hash : String
  pub used_at : Option ℕ

pub record AuthSession : Type 0 where
  pub id : ℕ
  pub user_id : ℕ
  pub token_hash : String
  pub expires_at : ℕ
  pub last_seen_at : ℕ
  pub revoked_at : Option ℕ

pub record LoginChallenge : Type 0 where
  pub id : ℕ
  pub user_id : ℕ
  pub token_hash : String
  pub expires_at : ℕ
  pub consumed_at : Option ℕ

pub record OAuthIdentity : Type 0 where
  pub id : ℕ
  pub provider : OAuthProvider
  pub subject : String
  pub user_id : ℕ

pub record Invitation : Type 0 where
  pub id : ℕ
  pub email : String
  pub tenant_id : ℕ
  pub role : String
  pub token_hash : String
  pub expires_at : ℕ
  pub accepted_at : Option ℕ
  pub invited_by_user_id : Option ℕ

-- `AuthError` by message, and the `CryptoError` that a decryption may raise.
pub data AuthError : Type 0 where
  no_totp_secret totp_already_enabled no_enrolment invalid_code : AuthError
  totp_not_enabled invalid_password truncated_data invalid_tag : AuthError
  -- The `TypeError` of a comparison with a code that is not ASCII.
  uncomparable_code : AuthError
