-- ===== src/Connectors/Throttle/Locks.antt =====
-- apps/api/app/connectors/throttle.py: lemmas on the holder of a lock.
use blank.Prelude.{
  ℕ, zero, suc, ◌≡◌, false, none, some, String, str_eq, eq_iff, arith, if◌then◌else◌, is_none,
}
use blank.Core.Keys.{Keys}
use blank.Connectors.Throttle.{
  lock_key, acquire_lock, release_held, release_lock, wait_for_lock, lock_ttl_seconds,
}

module _ (keys : Keys) where
  -- The outcome of an acquisition: it succeeds if the lock is free, and then holds it; a lock that
  -- is held stays as it is.
  pub acquire_lock-outcome :
      (name token : String) (s : keys.Store)
      → let (got, s') = acquire_lock keys name token s in
        let held = keys.value (lock_key name) s in
        (got ≡ (if is_none held then some token else none))
        × (keys.value (lock_key name) s' ≡ (if is_none held then some token else held))
  unfolding acquire_lock
  acquire_lock-outcome name token s = ground (
    arith,
    keys.set_nx-answer (lock_key name) token lock_ttl_seconds s,
    keys.value-set_nx_self (lock_key name) token lock_ttl_seconds s,
  )

  pub release_lock-outcome :
      (name token current : String) (s : keys.Store)
      → keys.value (lock_key name) s ≡ some current
      → keys.value (lock_key name) (release_lock keys name token s)
        ≡ (if str_eq current token then none else some current)
  unfolding release_lock release_held
  release_lock-outcome name token current s held =
      rw held (ground (arith, held, keys.value-delete_self (lock_key name) s))

  -- A free lock is acquired. While its holder has it, an acquisition with another token gets nothing
  -- and a release with that token changes nothing; the holder's release frees it for the next.
  pub lock_exclusive :
      (name mine other : String) (s : keys.Store)
      → str_eq mine other ≡ false
      → keys.value (lock_key name) s ≡ none
      → let s₁ = (acquire_lock keys name mine s).1 in
        let s₂ = (acquire_lock keys name other s₁).1 in
        let s₃ = release_lock keys name other s₂ in
        ((acquire_lock keys name mine s).0 ≡ some mine)
        × ((acquire_lock keys name other s₁).0 ≡ none)
        × (keys.value (lock_key name) s₃ ≡ some mine)
        × ((acquire_lock keys name other (release_lock keys name mine s₃)).0 ≡ some other)
  lock_exclusive name mine other s differ free =
      let s₁ = (acquire_lock keys name mine s).1 in
      let s₂ = (acquire_lock keys name other s₁).1 in
      let s₃ = release_lock keys name other s₂ in
      let first = acquire_lock-outcome name mine s in
      let held₁ : keys.value (lock_key name) s₁ ≡ some mine = ground arith in
      let second = acquire_lock-outcome name other s₁ in
      let held₂ : keys.value (lock_key name) s₂ ≡ some mine = ground arith in
      let kept = release_lock-outcome name other mine s₂ held₂ in
      let held₃ : keys.value (lock_key name) s₃ ≡ some mine = ground arith in
      let freed = release_lock-outcome name mine mine s₃ held₃ in
      let third = acquire_lock-outcome name other (release_lock keys name mine s₃) in
      (ground arith, ground arith, held₃, ground (arith, eq_iff mine mine))

  -- A lock that was waited for is held by the token that is returned, whatever others did.
  pub wait_for_lock_sound :
      (name : String) (token : ℕ → String) (others : ℕ → keys.Store → keys.Store) (tries : ℕ)
      (s : keys.Store) {mine : String}
      → (wait_for_lock keys name token others tries s).0 ≡ some mine
      → keys.value (lock_key name) (wait_for_lock keys name token others tries s).1 ≡ some mine
  unfolding wait_for_lock
  wait_for_lock_sound name token others zero s e = cc
  wait_for_lock_sound name token others (suc tries) s {mine} e =
      let now = acquire_lock-outcome name (token tries) s in
      let s₁ = (acquire_lock keys name (token tries) s).1 in
      let later = wait_for_lock_sound name token others tries (others tries s₁) {mine = mine} in
      ground (arith, later)
