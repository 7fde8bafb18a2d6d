-- ===== src/Connectors/Throttle.antt =====
-- apps/api/app/connectors/throttle.py: the budget of a connection, retries with backoff, and the
-- locks in Valkey.
pub mod Bounds
pub mod Locks
use Prim.Native.String
use blank.Prelude.{
  ℕ, zero, suc, ◌+◌, Bool, true, false, ◌||◌, Option, none, some, List, [], ◌∷◌, String, str_eq,
  ltb, leb, ◌==◌, if◌then◌else◌, Result, ok, err, Exec,
}
use blank.Core.Counters.{Counters}
use blank.Core.Keys.{Keys}

abbrev pub window_seconds : ℕ
window_seconds = 60

abbrev pub max_attempts : ℕ
max_attempts = 5

abbrev pub lock_ttl_seconds : ℕ
lock_ttl_seconds = 30

-- What an attempt raises: `ProviderResponseError` with its status and Retry-After, or another error.
pub data AttemptError (E : Type 0) : Type 0 where
  response_error : ℕ → Option ℕ → AttemptError E
  other_error : E → AttemptError E

-- What `run_with_backoff` raises besides: `ProviderUnavailable`.
pub data ThrottleError (E : Type 0) : Type 0 where
  attempt_error : AttemptError E → ThrottleError E
  provider_unavailable : ThrottleError E

pub is_retryable : ℕ → Bool
is_retryable status = (status == 429) || leb 500 status

-- Why the caller sleeps: for the next window, for Retry-After, or the delay of the backoff before
-- the next attempt.
pub data Wait : Type 0 where
  next_window : Wait
  retry_after : ℕ → Wait
  backoff : ℕ → Wait

-- The counters, the sleeps, how many attempts were made, and the attempts' own state.
pub record Throttled (C S : Type 0) : Type 0 where
  pub counters : C
  pub waits : List Wait
  pub attempts : ℕ
  pub inner : S

wait_of : Option ℕ → ℕ → Wait
wait_of none attempt_no = backoff attempt_no
wait_of (some delay) attempt_no = retry_after delay

module _ (v : Counters) {S : Type 0} where
  -- `_budget_delay` and the sleep that follows it.
  pub spend_budget : String → ℕ → Throttled v.Store S → Throttled v.Store S
  spend_budget key requests_per_minute s =
      let c₁ = v.incrby key 1 s.counters in
      let count = v.count key c₁ in
      let c₂ = if count == 1 then v.expire key window_seconds c₁ else c₁ in
      let waits = if ltb requests_per_minute count then next_window ∷ s.waits else s.waits in
      record s { counters = c₂; waits = waits }

module _ (v : Counters) {S E A : Type 0} where
  pub run_attempt :
      Exec S (AttemptError E) A
      → Throttled v.Store S
      → Result (AttemptError E) A × Throttled v.Store S
  run_attempt attempt s =
      let (r, inner) = attempt s.inner in
      (
        r,
        record { counters = s.counters; waits = s.waits; attempts = s.attempts + 1; inner = inner },
      )

  -- What is left of the loop after an attempt: `none` goes round again.
  pub settle :
      ℕ
      → Result (AttemptError E) A
      → Throttled v.Store S
      → Option (Result (ThrottleError E) A) × Throttled v.Store S
  unfolding wait_of
  settle attempt_no (ok a) s = (some (ok a), s)
  settle attempt_no (err (other_error e)) s = (some (err (attempt_error (other_error e))), s)
  settle attempt_no (err (response_error status delay)) s =
      if is_retryable status
      then (none, record s { waits = wait_of delay attempt_no ∷ s.waits })
      else (some (err (attempt_error (response_error status delay))), s)

  -- The loop over `range(MAX_ATTEMPTS)`, by the number of rounds left.
  pub run_rounds :
      String
      → ℕ
      → Exec S (AttemptError E) A
      → ℕ
      → ℕ
      → Exec (Throttled v.Store S) (ThrottleError E) A
  run_rounds key requests_per_minute attempt zero attempt_no s = (err provider_unavailable, s)
  run_rounds key requests_per_minute attempt (suc left) attempt_no s =
      let (r, s₁) = run_attempt attempt (spend_budget v key requests_per_minute s) in
      let (over, s₂) = settle attempt_no r s₁ in
      elim over [
        | some result ↦ (result, s₂)
        | none ↦ run_rounds key requests_per_minute attempt left (suc attempt_no) s₂
      ]

  pub run_with_backoff :
      String → ℕ → Exec S (AttemptError E) A → Exec (Throttled v.Store S) (ThrottleError E) A
  unfolding run_rounds
  run_with_backoff key requests_per_minute attempt =
      run_rounds key requests_per_minute attempt max_attempts 0

-- The locks; the token of an acquisition is a new `uuid4` of the caller.
pub lock_key : String → String
lock_key name = String.◌++◌ "connector:lock:" name

module _ (keys : Keys) where
  unfoldable pub acquire_lock : String → String → keys.Store → Option String × keys.Store
  acquire_lock name token s =
      let (acquired, s') = keys.set_nx (lock_key name) token lock_ttl_seconds s in
      (if acquired then some token else none, s')

  pub release_held : String → String → Option String → keys.Store → keys.Store
  release_held name token none s = s
  release_held name token (some current) s =
      if str_eq current token then keys.delete (lock_key name) s else s

  pub release_lock : String → String → keys.Store → keys.Store
  unfolding release_held
  release_lock name token s = release_held name token (keys.value (lock_key name) s) s

  -- The blocking acquisition: `others n` is what other processes do during the n-th sleep, and
  -- `token n` the identifier drawn for the n-th try.
  unfoldable pub wait_for_lock :
      String
      → (ℕ → String)
      → (ℕ → keys.Store → keys.Store)
      → ℕ
      → keys.Store
      → Option String × keys.Store
  wait_for_lock name token others zero s = (none, s)
  wait_for_lock name token others (suc tries) s =
      let (got, s₁) = acquire_lock name (token tries) s in
      elim got [
        | some mine ↦ (some mine, s₁)
        | none ↦ wait_for_lock name token others tries (others tries s₁)
      ]
