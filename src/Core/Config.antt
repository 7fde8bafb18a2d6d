-- ===== src/Core/Config.antt =====
-- apps/api/app/core/config.py: the settings that the modelled code reads, and the functions of
-- third-party packages and of Python's library that it calls. Times are counted in microseconds,
-- the resolution of `datetime`.
use blank.Prelude.{ℕ, ◌*◌, Bool, List, String}

-- The settings, `Settings`.
pub record Settings : Type 0 where
  pub session_ttl_hours : ℕ
  pub invitation_ttl_hours : ℕ
  pub login_challenge_ttl_minutes : ℕ
  pub auth_rate_limit_attempts : ℕ
  pub auth_rate_limit_window_seconds : ℕ

-- Third-party functions: `func.lower` and `str.lower`, sha256, argon2 and pyotp.
pub record Env : Type 0 where
  pub settings : Settings
  pub lower : String → String
  pub sha256_hex : String → String
  -- argon2's hash with the salt of the call, its check and its test for outdated parameters.
  pub argon2_hash : String → String
  pub argon2_verify : String → String → Bool
  pub argon2_needs_rehash : String → Bool
  -- The code that pyotp computes from a secret at a time step.
  pub totp_at : List ℕ → ℕ → String
  -- `secrets.compare_digest` raises on a text with a character outside ASCII.
  pub is_ascii : String → Bool

unfoldable pub seconds : ℕ → ℕ
seconds n = n * 1000000

pub minutes : ℕ → ℕ
unfolding seconds
minutes n = seconds (n * 60)

unfoldable pub hours : ℕ → ℕ
unfolding seconds
hours n = seconds (n * 3600)
