-- ===== src/Auth/RateLimit/Window.antt =====
-- apps/api/app/auth/rate_limit.py: lemmas on the requests of one window.
use blank.Prelude.{
  ℕ, ◌+◌, ◌≤◌, max, ◌≡◌, ◌⊎◌, inl, inr, true, List, [], ◌∷◌, String, str_eq, eq_iff, arith,
  if◌then◌else◌, Bool-cases, Result-cases, ok, err,
}
use blank.Prelude.Text.{contains}
use blank.Prelude.Table.{All}
use blank.Core.Config.{Env}
use blank.Core.Counters.{Counters}
use blank.Auth.RateLimit.{HttpError, http_error, hit, enforce_keys, enforce_rate_limit, limit_keys}

module _ (env : Env) (v : Counters) where
  hit-count :
      (k key : String) (s : v.Store)
      → v.count k (hit env v key s).1 ≡ v.count k s + (if str_eq k key then 1 else 0)
  unfolding hit
  hit-count k key s = ground (
    arith,
    eq_iff k key,
    v.count-incrby_self key 1 s,
    v.count-incrby_other k key 1 s,
    v.count-expire k key env.settings.auth_rate_limit_window_seconds (v.incrby key 1 s),
  )

  hit_passes :
      (key : String) (s : v.Store)
      → (hit env v key s).0 ≡ ok tt
      → v.count key s + 1 ≤ env.settings.auth_rate_limit_attempts
  unfolding hit
  hit_passes key s e = ground (arith, v.count-incrby_self key 1 s)

  enforce_keys-grows :
      (k : String) (keys : List String) (s : v.Store)
      → v.count k s ≤ v.count k (enforce_keys env v keys s).1
  unfolding enforce_keys
  enforce_keys-grows k [] s = omega arith
  enforce_keys-grows k (key ∷ keys) s =
      let step = hit-count k key s in
      let rest = enforce_keys-grows k keys (hit env v key s).1 in ground arith

  -- A request that passes was counted under each of its keys, within the limit.
  enforce_keys_passes :
      (k : String) (keys : List String) (s : v.Store)
      → contains keys k ≡ true
      → (enforce_keys env v keys s).0 ≡ ok tt
      → (v.count k s + 1 ≤ v.count k (enforce_keys env v keys s).1)
        × (v.count k s + 1 ≤ env.settings.auth_rate_limit_attempts)
  unfolding enforce_keys
  enforce_keys_passes k [] s c e = cc
  enforce_keys_passes k (key ∷ keys) s c e =
      let s₁ = (hit env v key s).1 in
      let step = hit-count k key s in
      let gate : (hit env v key s).0 ≡ ok tt = ground arith in
      let here = hit_passes key s gate in
      let later = enforce_keys-grows k keys s₁ in
      elim (Bool-cases (str_eq key k)) [
        | inl same ↦ ground (arith, eq_iff key k, eq_iff k key)
        | inr other ↦
            let rest = enforce_keys_passes k keys s₁ (ground arith) (ground arith) in ground arith
      ]

  enforce_keys-refuses :
      (keys : List String) (s : v.Store) {e : HttpError}
      → (enforce_keys env v keys s).0 ≡ err e
      → e ≡ http_error 429
  unfolding enforce_keys hit
  enforce_keys-refuses [] s h = cc
  enforce_keys-refuses (key ∷ keys) s {e} h =
      ground (arith, enforce_keys-refuses keys (hit env v key s).1 {e = e})

  -- The rate limit refuses with 429 alone.
  pub enforce_rate_limit-refuses :
      (scope client_ip : String) (identifiers : List String) (s : v.Store) {e : HttpError}
      → (enforce_rate_limit env v scope client_ip identifiers s).0 ≡ err e
      → e ≡ http_error 429
  unfolding enforce_rate_limit
  enforce_rate_limit-refuses scope client_ip identifiers s {e} h =
      enforce_keys-refuses (limit_keys env scope client_ip identifiers) s {e = e} h

  -- The number of requests that pass, when these come one after the other in a window.
  pub passed : List (List String) → v.Store → ℕ
  passed [] s = 0
  passed (keys ∷ requests) s =
      let (answer, s') = enforce_keys env v keys s in
      (elim answer [ ok _ ↦ 1 | err _ ↦ 0 ]) + passed requests s'

  -- Of all the requests of a window that are counted under one key, no more pass than the limit
  -- allows, less what the key had counted before.
  pub passed-le-attempts :
      (k : String) (requests : List (List String)) (s : v.Store)
      → All (λ keys. contains keys k ≡ true) requests
      → passed requests s + v.count k s ≤ max env.settings.auth_rate_limit_attempts (v.count k s)
  unfolding passed
  passed-le-attempts k [] s h = omega arith
  passed-le-attempts k (keys ∷ requests) s (c, h) =
      let rest = passed-le-attempts k requests (enforce_keys env v keys s).1 h in
      let grows = enforce_keys-grows k keys s in
      elim (Result-cases (enforce_keys env v keys s).0) [
        | inl (done, e) ↦ let one = enforce_keys_passes k keys s c e in rw e (omega arith)
        | inr (refused, e) ↦ rw e (omega arith)
      ]

  -- Every key that counts has a time to live.
  pub record Expires (s : v.Store) : Type 0 where
    pub counted : (k : String) → 1 ≤ v.count k s → v.has_ttl k s ≡ true

  hit-Expires : (key : String) (s : v.Store) → Expires s → Expires (hit env v key s).1
  unfolding hit
  hit-Expires key s inv =
      let s₁ = v.incrby key 1 s in
      let ttl = env.settings.auth_rate_limit_window_seconds in
      record {
        counted = λ k counts. ground (
          arith,
          eq_iff k key,
          v.count-incrby_self key 1 s,
          v.count-incrby_other k key 1 s,
          v.count-expire k key ttl s₁,
          v.has_ttl-incrby k key 1 s,
          v.has_ttl-expire_self key ttl s₁,
          v.has_ttl-expire_other k key ttl s₁,
          inv.counted k,
        );
      }

  -- After a request the store is as the first hit leaves it, or as the rest of the loop does.
  enforce_keys-cons :
      (key : String) (keys : List String) (s : v.Store)
      → ((enforce_keys env v (key ∷ keys) s).1 ≡ (enforce_keys env v keys (hit env v key s).1).1)
        ⊎ ((enforce_keys env v (key ∷ keys) s).1 ≡ (hit env v key s).1)
  unfolding enforce_keys
  enforce_keys-cons key keys s = elim (Result-cases (hit env v key s).0) [
    | inl (done, e) ↦ inl (ground arith)
    | inr (refused, e) ↦ inr (ground arith)
  ]

  -- No client is locked out for ever: whatever the answer, every key that counts has a time to live
  -- after a request, if every key had before.
  pub enforce_keys-Expires :
      (keys : List String) (s : v.Store) → Expires s → Expires (enforce_keys env v keys s).1
  unfolding enforce_keys
  enforce_keys-Expires [] s inv = inv
  enforce_keys-Expires (key ∷ keys) s inv =
      let step = hit-Expires key s inv in
      elim (enforce_keys-cons key keys s) [
        | inl goes_on ↦ rw goes_on (enforce_keys-Expires keys (hit env v key s).1 step)
        | inr stops ↦ rw stops step
      ]
