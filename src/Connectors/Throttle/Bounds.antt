-- ===== src/Connectors/Throttle/Bounds.antt =====
-- apps/api/app/connectors/throttle.py: lemmas on attempts and the budget.
use blank.Prelude.{
  ℕ, zero, suc, ◌+◌, ◌≤◌, ◌≡◌, refl, inl, inr, true, false, some, String, arith, Option-cases,
  Result, ok, err, Exec,
}
use blank.Core.Counters.{Counters}
use blank.Connectors.Throttle.{
  AttemptError, Throttled, response_error, other_error, provider_unavailable, spend_budget,
  run_attempt, settle, run_rounds, run_with_backoff, window_seconds, max_attempts,
}

module _ (v : Counters) {S E A : Type 0} (key : String) (requests_per_minute : ℕ) where
  round_counts :
      (attempt : Exec S (AttemptError E) A) (s : Throttled v.Store S)
      → let s' = (run_attempt v attempt (spend_budget v key requests_per_minute s)).1 in
        (s'.attempts ≡ s.attempts + 1) × (v.count key s'.counters ≡ v.count key s.counters + 1)
  unfolding run_attempt spend_budget
  round_counts attempt s = ground (
    arith,
    v.count-incrby_self key 1 s.counters,
    v.count-expire key key window_seconds (v.incrby key 1 s.counters),
  )

  settle_counts :
      (attempt_no : ℕ) (r : Result (AttemptError E) A) (s : Throttled v.Store S)
      → let s' = (settle v attempt_no r s).1 in
        (s'.attempts ≡ s.attempts) × (s'.counters ≡ s.counters)
  unfolding settle
  settle_counts attempt_no (ok a) s = (refl, refl)
  settle_counts attempt_no (err (other_error e)) s = (refl, refl)
  settle_counts attempt_no (err (response_error status delay)) s = ground arith

  run_rounds-bounded :
      (attempt : Exec S (AttemptError E) A) (left attempt_no : ℕ) (s : Throttled v.Store S)
      → let (r, s') = run_rounds v key requests_per_minute attempt left attempt_no s in
        (s'.attempts ≤ s.attempts + left)
        × (v.count key s'.counters + s.attempts ≡ v.count key s.counters + s'.attempts)
  unfolding run_rounds
  run_rounds-bounded attempt zero attempt_no s = ground arith
  run_rounds-bounded attempt (suc left) attempt_no s =
      let s₀ = spend_budget v key requests_per_minute s in
      let round = run_attempt v attempt s₀ in
      let counted = round_counts attempt s in
      let settled = settle_counts attempt_no round.0 round.1 in
      let s₂ = (settle v attempt_no round.0 round.1).1 in
      let rest = run_rounds-bounded attempt left (suc attempt_no) s₂ in
      elim (Option-cases (settle v attempt_no round.0 round.1).0) [
        | inl again ↦ ground arith
        | inr (result, over) ↦ ground arith
      ]

  settle-ne-unavailable :
      (attempt_no : ℕ) (r : Result (AttemptError E) A) (s : Throttled v.Store S)
      → (settle v attempt_no r s).0 ≡ some (err provider_unavailable)
      → true ≡ false
  unfolding settle
  settle-ne-unavailable attempt_no (ok a) s e = cc
  settle-ne-unavailable attempt_no (err (other_error x)) s e = cc
  settle-ne-unavailable attempt_no (err (response_error status delay)) s e = ground arith

  run_rounds_gives_up :
      (attempt : Exec S (AttemptError E) A) (left attempt_no : ℕ) (s : Throttled v.Store S)
      → (run_rounds v key requests_per_minute attempt left attempt_no s).0
        ≡ err provider_unavailable
      → (run_rounds v key requests_per_minute attempt left attempt_no s).1.attempts
        ≡ s.attempts + left
  unfolding run_rounds
  run_rounds_gives_up attempt zero attempt_no s e = omega arith
  run_rounds_gives_up attempt (suc left) attempt_no s e =
      let s₀ = spend_budget v key requests_per_minute s in
      let round = run_attempt v attempt s₀ in
      let counted = round_counts attempt s in
      let settled = settle_counts attempt_no round.0 round.1 in
      let s₂ = (settle v attempt_no round.0 round.1).1 in
      let rest = run_rounds_gives_up attempt left (suc attempt_no) s₂ in
      let never = settle-ne-unavailable attempt_no round.0 round.1 in
      elim (Option-cases (settle v attempt_no round.0 round.1).0) [
        | inl again ↦ ground (arith, rest)
        | inr (result, over) ↦ ground (arith, never)
      ]

  -- A call makes at most five attempts, each of which the budget counted; it gives the provider up
  -- only after five.
  pub run_with_backoff-bounded :
      (attempt : Exec S (AttemptError E) A) (s : Throttled v.Store S)
      → let (r, s') = run_with_backoff v key requests_per_minute attempt s in
        (s'.attempts ≤ s.attempts + 5)
        × (v.count key s'.counters + s.attempts ≡ v.count key s.counters + s'.attempts)
        × (r ≡ err provider_unavailable → s'.attempts ≡ s.attempts + 5)
  unfolding run_with_backoff
  run_with_backoff-bounded attempt s =
      let (bound, spent) = run_rounds-bounded attempt max_attempts 0 s in
      (bound, spent, run_rounds_gives_up attempt max_attempts 0 s)
