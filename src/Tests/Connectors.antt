-- ===== src/Tests/Connectors.antt =====
-- The connectors' theorems on functions for stores.
use blank.Prelude.{
  ℕ, ◌+◌, ◌≤◌, ◌≡◌, refl, Bool, true, Option, none, some, [], ◌∷◌, String, str_eq, if◌then◌else◌,
  ok, err, Exec,
}
use blank.Connectors.Throttle.{
  AttemptError, Throttled, response_error, provider_unavailable, run_with_backoff, acquire_lock,
  release_lock, lock_key,
}
use blank.Connectors.Throttle.Bounds.{run_with_backoff-bounded}
use blank.Connectors.Throttle.Locks.{lock_exclusive}
use blank.Connectors.Tokens.{
  Connection, TokenResponse, TokenState, GrantError, Utf8, active, refresh_skipping,
}
use blank.Connectors.Tokens.Refresh.{refresh_skipping-lock}
use blank.Connectors.Tokens.Outcome.{Outcome, refresh_skipping-Outcome}
use blank.Tests.{kp, counters, no_counts, keys, no_keys}

-- A provider that is busy, and counts how often it is asked.
abbrev busy : Exec ℕ (AttemptError GrantError) ℕ
busy n = (err (response_error 503 none), n + 1)

abbrev idle : Throttled (String → ℕ × Bool) ℕ
idle = record { counters = no_counts; waits = []; attempts = 0; inner = 0 }

run_with_backoff-bounded_example :
    let s' = (run_with_backoff counters "k" 60 busy idle).1 in
    (s'.attempts ≤ 0 + 5)
    × (counters.count "k" s'.counters + 0 ≡ 0 + s'.attempts)
    × ((run_with_backoff counters "k" 60 busy idle).0 ≡ err provider_unavailable
        → s'.attempts ≡ 0 + 5)
run_with_backoff-bounded_example = run_with_backoff-bounded counters "k" 60 busy idle

lock_exclusive_example :
    let s₁ = (acquire_lock keys "r" "mine" no_keys).1 in
    let s₂ = (acquire_lock keys "r" "other" s₁).1 in
    let s₃ = release_lock keys "r" "other" s₂ in
    ((acquire_lock keys "r" "mine" no_keys).0 ≡ some "mine")
    × ((acquire_lock keys "r" "other" s₁).0 ≡ none)
    × (keys.value (lock_key "r") s₃ ≡ some "mine")
    × ((acquire_lock keys "r" "other" (release_lock keys "r" "mine" s₃)).0 ≡ some "other")
lock_exclusive_example = lock_exclusive keys "r" "mine" "other" no_keys refl refl

-- Texts of one character, enough for the tokens here.
abbrev utf8 : Utf8
utf8 = record { encode = λ s. if str_eq s "a" then 97 ∷ [] else []; decode = λ bytes. "a" }

abbrev post : String → Exec ℕ (AttemptError GrantError) TokenResponse
post token n = (
  ok (record {
    status_code = 200;
    error = "";
    is_object = true;
    access_token = some "a";
    refresh_token = none;
    expires_in = some (some 3600);
  }),
  n + 1,
)

abbrev connection : Connection
connection = record {
  id = 1;
  status = active;
  access_token_enc = 0 ∷ 98 ∷ [];
  refresh_token_enc = 0 ∷ 99 ∷ [];
  access_token_expires_at = 5;
  last_error = none;
  health_checked_at = none;
}

abbrev key_of : ℕ → String
key_of id = "c"

abbrev token_state : TokenState (String → ℕ × Bool) (String → Option String) ℕ
token_state = record {
  connection = connection;
  database = connection;
  keys = no_keys;
  network = idle;
  audit = [];
}

refresh_skipping-lock_example :
    let s' = (refresh_skipping kp utf8 counters keys post key_of key_of 60 10 "t" token_state).1 in
    keys.value (lock_key "c") s'.keys ≡ none
refresh_skipping-lock_example =
    refresh_skipping-lock kp utf8 counters keys post key_of key_of 60 10 "t" token_state

refresh_skipping-Outcome_example :
    let done = refresh_skipping kp utf8 counters keys post key_of key_of 60 10 "t" token_state in
    Outcome kp utf8 counters keys post key_of key_of 60 10 done.0 token_state done.1
refresh_skipping-Outcome_example =
    refresh_skipping-Outcome kp utf8 counters keys post key_of key_of 60 10 "t" token_state
