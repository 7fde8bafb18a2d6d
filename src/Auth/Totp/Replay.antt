-- ===== src/Auth/Totp/Replay.antt =====
-- apps/api/app/auth/service.py: lemmas on the time steps of accepted codes.
use blank.Prelude.{
  ℕ, ◌+◌, ◌-◌, ◌≤◌, ◌<◌, ◌≡◌, refl, inl, inr, true, false, some, List, [], ◌∷◌, String, str_eq,
  arith, Bool-cases, Result-cases, ok,
}
use blank.Prelude.Table.{All}
use blank.Core.Config.{Env}
use blank.Core.Crypto.{KeyProvider}
use blank.Core.Db.{Db}
use blank.Auth.Models.{UserCredentials}
use blank.Auth.Users.{get_credentials, write_credentials}
use blank.Auth.Users.Laws.{get_credentials-written}
use blank.Auth.Totp.{
  time_step, is_replay, decrypt_totp_secret, try_counters, window, verify_totp_code,
}

-- The step becomes the last one that was accepted.
abbrev pub accept_step : ℕ → UserCredentials → UserCredentials
accept_step k r = record r { totp_last_counter = some k }

-- What an accepted code has done: it fits a step behind the last one, which is recorded.
pub record Accepts (low high : ℕ) (c : UserCredentials) (db after : Db) : Type 0 where
  pub step : ℕ
  pub above : low ≤ step
  pub below : step ≤ high
  pub fresh : is_replay c.totp_last_counter step ≡ false
  pub written : after ≡ write_credentials c.user_id (accept_step step) db

module _ (env : Env) (kp : KeyProvider) (low high : ℕ) (c : UserCredentials) (code : String)
    (secret : List ℕ) where
  try_counters-Accepts :
      (counters : List ℕ) (db : Db)
      → All (λ k. (low ≤ k) × (k ≤ high)) counters
      → (try_counters env kp c code secret counters db).0 ≡ ok true
      → Accepts low high c db (try_counters env kp c code secret counters db).1
  unfolding try_counters is_replay
  try_counters-Accepts [] db h e = cc
  try_counters-Accepts (k ∷ ks) db (here, h) e =
      elim (Bool-cases (str_eq (env.totp_at secret k) code)) [
        | inl fits ↦ record {
          step = k;
          above = here.0;
          below = here.1;
          fresh = ground arith;
          written = ground arith;
        }
        | inr other ↦ rw other (try_counters-Accepts ks db h (ground arith))
      ]

verify_totp_code-opened :
    (env : Env) (kp : KeyProvider) (now : ℕ) (c : UserCredentials) (code : String) (db : Db)
    (secret : List ℕ)
    → decrypt_totp_secret env kp c ≡ ok secret
    → env.is_ascii code ≡ true
    → verify_totp_code env kp now c code db
      ≡ try_counters env kp c code secret (window env kp now) db
unfolding verify_totp_code
verify_totp_code-opened env kp now c code db secret e ascii = ground arith

-- A code that is accepted fits a step of the window that lies behind the last accepted one.
pub verify_totp_code-Accepts :
    (env : Env) (kp : KeyProvider) (now : ℕ) (c : UserCredentials) (code : String) (db : Db)
    → (verify_totp_code env kp now c code db).0 ≡ ok true
    → Accepts (time_step now - 1) (time_step now + 1) c db (verify_totp_code env kp now c code db).1
verify_totp_code-Accepts env kp now c code db e =
    elim (Result-cases (decrypt_totp_secret env kp c)) [
      | inl (secret, opened) ↦ elim (Bool-cases (env.is_ascii code)) [
        | inr strange ↦ absurd (unfold verify_totp_code in ground arith)
        | inl ascii ↦
            let same = verify_totp_code-opened env kp now c code db secret opened ascii in
            rw same (
              try_counters-Accepts env kp (time_step now - 1) (time_step now + 1) c code secret
                (window env kp now) db (omega arith) (rw same at e))
      ]
      | inr (bad, refused) ↦ absurd (unfold verify_totp_code in ground arith)
    ]

-- When two codes of a user are accepted one after the other, the step kept for the second lies above
-- that kept for the first; the first is at most one step ahead of its instant, the second at most
-- one behind its own, and of the credentials only the step changes.
pub verify_totp_code_once :
    (env : Env) (kp : KeyProvider) (user_id now later : ℕ) (code code' : String) (db : Db)
    {c c' : UserCredentials}
    → get_credentials user_id db ≡ some c
    → (verify_totp_code env kp now c code db).0 ≡ ok true
    → get_credentials user_id (verify_totp_code env kp now c code db).1 ≡ some c'
    → (verify_totp_code env kp later c' code' (verify_totp_code env kp now c code db).1).0 ≡ ok true
    → (k k' : ℕ) × (c'.totp_last_counter ≡ some k)
      × (k < k')
      × (k ≤ time_step now + 1)
      × (time_step later - 1 ≤ k')
      × (get_credentials user_id
            (verify_totp_code env kp later c' code' (verify_totp_code env kp now c code db).1).1
          ≡ some (record c { totp_last_counter = some k' }))
unfolding is_replay
verify_totp_code_once env kp user_id now later code code' db {c} {c'} e first e' second =
    let db₁ = (verify_totp_code env kp now c code db).1 in
    let one = verify_totp_code-Accepts env kp now c code db first in
    let two = verify_totp_code-Accepts env kp later c' code' db₁ second in
    let after =
      get_credentials-written user_id (accept_step one.step) db db₁ (λ r. refl) e one.written in
    let after' =
      get_credentials-written user_id (accept_step two.step) db₁
        (verify_totp_code env kp later c' code' db₁).1 (λ r. refl) e' two.written in
    (
      one.step,
      two.step,
      ground (arith, after),
      ground (arith, after, two.fresh),
      one.below,
      two.above,
      ground (arith, after, after'),
    )
