-- ===== src/Connectors/Tokens/Refresh.antt =====
-- apps/api/app/connectors/service.py: the lock of a connection after a refresh.
use blank.Prelude.{
  ℕ, ◌≡◌, refl, ap, ◌∙◌, ◌⊎◌, inl, inr, none, some, String, arith, Option-cases, Result, ok, err,
  Exec,
}
use blank.Prelude.Text.{str_eq_refl}
use blank.Core.Counters.{Counters}
use blank.Core.Crypto.{KeyProvider}
use blank.Core.Keys.{Keys}
use blank.Auth.Models.{AuthError}
use blank.Connectors.Throttle.{
  AttemptError, ThrottleError, response_error, other_error, attempt_error, provider_unavailable,
  lock_key, acquire_lock, wait_for_lock,
}
use blank.Connectors.Throttle.Locks.{
  acquire_lock-outcome, release_lock-outcome, wait_for_lock_sound,
}
use blank.Connectors.Tokens.{
  TokenBundle, TokenResponse, GrantError, State, Utf8, lock_busy, invalid_grant, connector_error,
  unreadable_answer, http_error, settle_grant, grant_with, decrypt_token, refresh_locked,
  refresh_skipping, refresh_obtained, refresh_waiting,
}

module _ (kp : KeyProvider) (utf8 : Utf8) (v : Counters) (keys : Keys) {S : Type 0}
    (post : String → Exec S (AttemptError GrantError) TokenResponse) (budget_key : ℕ → String)
    (lock_name : ℕ → String) (requests_per_minute : ℕ) where
  settle_grant-keys :
      (now : ℕ) (r : Result (ThrottleError GrantError) TokenBundle)
      (s : State kp utf8 v keys post budget_key lock_name requests_per_minute)
      → let s' =
          (settle_grant kp utf8 v keys post budget_key lock_name requests_per_minute now r s).1 in
        s'.keys ≡ s.keys
  unfolding settle_grant
  settle_grant-keys now (ok bundle) s = refl
  settle_grant-keys now (err (attempt_error (other_error invalid_grant))) s = refl
  settle_grant-keys now (err (attempt_error (other_error connector_error))) s = refl
  settle_grant-keys now (err (attempt_error (other_error unreadable_answer))) s = refl
  settle_grant-keys now (err (attempt_error (other_error http_error))) s = refl
  settle_grant-keys now (err (attempt_error (response_error status delay))) s = refl
  settle_grant-keys now (err provider_unavailable) s = refl

  grant_with-keys :
      (now : ℕ) (r : Result AuthError String)
      (s : State kp utf8 v keys post budget_key lock_name requests_per_minute)
      → let s' =
          (grant_with kp utf8 v keys post budget_key lock_name requests_per_minute now r s).1 in
        s'.keys ≡ s.keys
  unfolding grant_with
  grant_with-keys now (err e) s = refl
  grant_with-keys now (ok token) s = settle_grant-keys now _ _

  -- The `finally` frees a lock that its token holds.
  refresh_locked_frees :
      (now : ℕ) (token : String)
      (s : State kp utf8 v keys post budget_key lock_name requests_per_minute)
      → let key = lock_key (lock_name s.connection.id) in
        let s' =
          (refresh_locked kp utf8 v keys post budget_key lock_name requests_per_minute now token
            s).1 in
        keys.value key s.keys ≡ some token → keys.value key s'.keys ≡ none
  unfolding refresh_locked
  refresh_locked_frees now token s held =
      let name = lock_name s.connection.id in
      let sealed = decrypt_token kp utf8 s.connection.refresh_token_enc in
      let s' =
        (grant_with kp utf8 v keys post budget_key lock_name requests_per_minute now sealed s).1 in
      let kept = ap (keys.value (lock_key name)) (grant_with-keys now sealed s) in
      let freed = release_lock-outcome keys name token token s'.keys (kept ∙ held) in
      ground (arith, str_eq_refl token)

  -- A periodic refresh leaves its lock as it found it, whatever the provider answers and whatever is
  -- raised: free if it was free, and held by the same token if another held it.
  pub refresh_skipping-lock :
      (now : ℕ) (token : String)
      (s : State kp utf8 v keys post budget_key lock_name requests_per_minute)
      → let key = lock_key (lock_name s.connection.id) in
        let s' =
          (refresh_skipping kp utf8 v keys post budget_key lock_name requests_per_minute now token
            s).1 in
        keys.value key s'.keys ≡ keys.value key s.keys
  unfolding refresh_skipping
  refresh_skipping-lock now token s =
      let name = lock_name s.connection.id in
      let k = (acquire_lock keys name token s.keys).1 in
      let outcome = acquire_lock-outcome keys name token s.keys in
      elim (Option-cases (keys.value (lock_key name) s.keys)) [
        | inl free ↦
            let freed = refresh_locked_frees now token (record s { keys = k }) (ground arith) in
            ground arith
        | inr (holder, held) ↦ ground arith
      ]

  -- After the lock was obtained by waiting, it is free again, whether the row had been refreshed by
  -- another, is refreshed now, or the refresh fails; the database's row is the same connection.
  pub refresh_waiting-frees :
      (now : ℕ) (token : ℕ → String) (others : ℕ → keys.Store → keys.Store)
      (s : State kp utf8 v keys post budget_key lock_name requests_per_minute)
      → s.database.id ≡ s.connection.id
      → let (r, s') =
          refresh_waiting kp utf8 v keys post budget_key lock_name requests_per_minute now token
            others s in
        (r ≡ err lock_busy) ⊎ (keys.value (lock_key (lock_name s.connection.id)) s'.keys ≡ none)
  unfolding refresh_waiting refresh_obtained
  refresh_waiting-frees now token others s same =
      let name = lock_name s.connection.id in
      let waited = wait_for_lock keys name token others 20 s.keys in
      elim (Option-cases waited.0) [
        | inl busy ↦ ground arith
        | inr (mine, got) ↦
            let held = wait_for_lock_sound keys name token others 20 s.keys got in
            let s₁ : State kp utf8 v keys post budget_key lock_name requests_per_minute = record s {
              connection = s.database;
              keys = waited.1;
            } in
            let names = ap (λ (i : ℕ). lock_key (lock_name i)) same in
            let there = ap (λ (key : String). keys.value key waited.1) names in
            let freed = refresh_locked_frees now mine s₁ (there ∙ held) in
            let unused =
              release_lock-outcome keys (lock_name s.database.id) mine mine waited.1
                (there ∙ held) in
            ground (arith, str_eq_refl mine)
      ]
