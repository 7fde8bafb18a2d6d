-- ===== src/Connectors/Tokens/Outcome.antt =====
-- apps/api/app/connectors/service.py: the row of a connection after a refresh.
use blank.Prelude.{
  ℕ, ◌≡◌, refl, ◌⊎◌, ◌+◌, inl, inr, Bool, true, false, Option, none, some, ◌∷◌, List, String,
  str_eq, if◌then◌else◌, arith, leb, Option-cases, Result, ok, err, Exec,
}
use blank.Core.Config.{seconds}
use blank.Core.Counters.{Counters}
use blank.Core.Crypto.{KeyProvider}
use blank.Core.Keys.{Keys}
use blank.Auth.Models.{AuthError}
use blank.Connectors.Throttle.{
  AttemptError, ThrottleError, response_error, other_error, attempt_error, provider_unavailable,
  acquire_lock, run_with_backoff, Throttled,
}
use blank.Connectors.Tokens.{
  Connection, TokenBundle, TokenResponse, GrantError, RefreshError, State, Utf8, active,
  needs_reconsent, invalid_grant, connector_error, http_error, unreadable_answer, encrypt_token,
  apply_token_bundle, access_token_expiring, expiry_skew_seconds, settle_grant, grant_with,
  decrypt_token, refresh_locked, refresh_skipping, refresh_token_grant, kept_refresh_token,
}

abbrev KeepsTokens : Connection → Connection → Type 0
KeepsTokens c c' =
    (c'.access_token_enc ≡ c.access_token_enc)
    × (c'.refresh_token_enc ≡ c.refresh_token_enc)
    × (c'.access_token_expires_at ≡ c.access_token_expires_at)

abbrev is_renewal : Result RefreshError Bool → Bool
is_renewal (ok renewed) = renewed
is_renewal (err _) = false

module _ (kp : KeyProvider) (utf8 : Utf8) (v : Counters) (keys : Keys) {S : Type 0}
    (post : String → Exec S (AttemptError GrantError) TokenResponse) (budget_key : ℕ → String)
    (lock_name : ℕ → String) (requests_per_minute now : ℕ) where
  abbrev TheState : Type 0
  TheState = State kp utf8 v keys post budget_key lock_name requests_per_minute

  -- The provider gave these tokens for the refresh token of the connection.
  abbrev pub IsGranted : TokenBundle → TheState → Type 0
  IsGranted bundle s =
      (refresh_token : String) × (decrypt_token kp utf8 s.connection.refresh_token_enc
        ≡ ok refresh_token)
      × ((run_with_backoff v (budget_key s.connection.id) requests_per_minute
            (refresh_token_grant kp utf8 v keys post budget_key lock_name requests_per_minute
              refresh_token)
            s.network).0
          ≡ ok bundle)

  -- The row has the tokens of the bundle, the new refresh token only if there is one; it is active and
  -- without an error.
  abbrev pub HasTokens : TokenBundle → Connection → Connection → Type 0
  HasTokens bundle c c' =
      (c'.access_token_enc ≡ encrypt_token kp utf8 bundle.access_token)
      × (c'.refresh_token_enc ≡ (elim bundle.refresh_token [
        | none ↦ c.refresh_token_enc
        | some fresh ↦ if str_eq fresh "" then c.refresh_token_enc else encrypt_token kp utf8 fresh
      ]))
      × (c'.access_token_expires_at ≡ now + seconds bundle.expires_in)
      × (c'.status ≡ active)
      × (c'.last_error ≡ none)

  -- The three ends of a refresh.
  abbrev pub Ends : Result RefreshError Bool → TheState → TheState → Type 0
  Ends r s s' =
      ((r ≡ ok true)
        × ((bundle : TokenBundle) × IsGranted bundle s
            × HasTokens bundle s.connection s'.connection)
        × (s'.audit ≡ s.audit))
      ⊎ ((r ≡ ok false)
          × (s'.connection.status ≡ needs_reconsent)
          × KeepsTokens s.connection s'.connection
          × (s'.audit ≡ s.connection.id ∷ s.audit))
      ⊎ ((is_renewal r ≡ false)
          × (s'.connection.status ≡ s.connection.status)
          × KeepsTokens s.connection s'.connection
          × (s'.audit ≡ s.audit))

  abbrev pub Outcome : Result RefreshError Bool → TheState → TheState → Type 0
  Outcome r s s' = (s'.connection.id ≡ s.connection.id) × Ends r s s'

  kept_lem :
      (o : Option String) (sealed : List ℕ)
      → kept_refresh_token kp utf8 o sealed ≡ (elim o [
        | none ↦ sealed
        | some fresh ↦ if str_eq fresh "" then sealed else encrypt_token kp utf8 fresh
      ])
  unfolding kept_refresh_token
  kept_lem none sealed = refl
  kept_lem (some fresh) sealed = refl

  has_tokens :
      (bundle : TokenBundle) (c : Connection)
      → HasTokens bundle c (apply_token_bundle kp utf8 now bundle c)
  unfolding apply_token_bundle
  has_tokens bundle c = (refl, kept_lem bundle.refresh_token c.refresh_token_enc, refl, refl, refl)

  settle_grant-Outcome :
      (r : Result (ThrottleError GrantError) TokenBundle) (s : TheState)
      (network : Throttled v.Store S)
      → ((bundle : TokenBundle) → r ≡ ok bundle → IsGranted bundle s)
      → let done =
          settle_grant kp utf8 v keys post budget_key lock_name requests_per_minute now r
            (record s { network = network }) in
        Outcome done.0 s done.1
  unfolding settle_grant apply_token_bundle
  settle_grant-Outcome (ok bundle) s network granted =
      (refl, inl (refl, (bundle, granted bundle refl, has_tokens bundle s.connection), refl))
  settle_grant-Outcome (err (attempt_error (other_error invalid_grant))) s network granted =
      (refl, inr (inl (refl, refl, (refl, refl, refl), refl)))
  settle_grant-Outcome (err (attempt_error (other_error connector_error))) s network granted =
      (refl, inr (inr (refl, refl, (refl, refl, refl), refl)))
  settle_grant-Outcome (err (attempt_error (other_error unreadable_answer))) s network granted =
      (refl, inr (inr (refl, refl, (refl, refl, refl), refl)))
  settle_grant-Outcome (err (attempt_error (other_error http_error))) s network granted =
      (refl, inr (inr (refl, refl, (refl, refl, refl), refl)))
  settle_grant-Outcome (err (attempt_error (response_error status delay))) s network granted =
      (refl, inr (inr (refl, refl, (refl, refl, refl), refl)))
  settle_grant-Outcome (err provider_unavailable) s network granted =
      (refl, inr (inr (refl, refl, (refl, refl, refl), refl)))

  grant_with-Outcome :
      (r : Result AuthError String) (s : TheState)
      → decrypt_token kp utf8 s.connection.refresh_token_enc ≡ r
      → let done =
          grant_with kp utf8 v keys post budget_key lock_name requests_per_minute now r s in
        Outcome done.0 s done.1
  unfolding grant_with
  grant_with-Outcome (err e) s opened = (refl, inr (inr (refl, refl, (refl, refl, refl), refl)))
  grant_with-Outcome (ok refresh_token) s opened =
      settle_grant-Outcome _ s _ (λ bundle granted. (refresh_token, opened, granted))

  -- A periodic refresh ends in one of three ways: it answers true, and the row is active, without an
  -- error, with the tokens that the provider gave for its refresh token; it answers false, the row asks
  -- for a new consent, and the audit has one row more; or it answers false or raises, and status and
  -- audit stay. Only the first touches the tokens, and none the identifier.
  pub refresh_skipping-Outcome :
      (token : String) (s : TheState)
      → let done =
          refresh_skipping kp utf8 v keys post budget_key lock_name requests_per_minute now token
            s in
        Outcome done.0 s done.1
  unfolding refresh_skipping refresh_locked
  refresh_skipping-Outcome token s =
      let k = (acquire_lock keys (lock_name s.connection.id) token s.keys).1 in
      let s₁ : TheState = record s { keys = k } in
      let granted =
        grant_with-Outcome (decrypt_token kp utf8 s.connection.refresh_token_enc) s₁ refl in
      elim (Option-cases (acquire_lock keys (lock_name s.connection.id) token s.keys).0) [
        | inl busy ↦
            rw (refresh_skipping, busy) (refl, inr (inr (refl, refl, (refl, refl, refl), refl)))
        | inr (mine, got) ↦ rw (refresh_skipping, got) granted
      ]

-- What the database stores after a refresh decrypts to the token that the provider gave, and the
-- connection expires within the margin just if the provider gave it no longer life; the key
-- provider and UTF-8 undo themselves on that token.
pub apply_token_bundle-decrypts :
    (kp : KeyProvider) (utf8 : Utf8) (now : ℕ) (bundle : TokenBundle) (c : Connection)
    → kp.decrypt (kp.encrypt (utf8.encode bundle.access_token))
      ≡ ok (utf8.encode bundle.access_token)
    → utf8.decode (utf8.encode bundle.access_token) ≡ bundle.access_token
    → let c' = apply_token_bundle kp utf8 now bundle c in
      (decrypt_token kp utf8 c'.access_token_enc ≡ ok bundle.access_token)
      × (access_token_expiring now (seconds expiry_skew_seconds) c' ≡ leb bundle.expires_in 60)
unfolding apply_token_bundle decrypt_token encrypt_token access_token_expiring seconds
apply_token_bundle-decrypts kp utf8 now bundle c opens decodes = (ground arith, ground arith)
