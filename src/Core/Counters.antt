-- ===== src/Core/Counters.antt =====
-- The counters of the Valkey server, as the program uses them: INCR and INCRBY, EXPIRE and GET on
-- integer values. The server is not part of the repository; its documented laws stand for a stretch
-- of time in which no key expires.
use blank.Prelude.{ℕ, ◌+◌, ◌≡◌, Bool, true, false, String, str_eq}

pub record Counters : Type 1 where
  pub Store : Type 0
  -- The value of a key, 0 if it is absent.
  pub count : String → Store → ℕ
  pub has_ttl : String → Store → Bool
  pub incrby : String → ℕ → Store → Store
  pub expire : String → ℕ → Store → Store
  -- SET with a time to live.
  pub set_ex : String → ℕ → ℕ → Store → Store
  -- INCRBY adds to its key alone, and keeps every time to live.
  pub count-incrby_self : (k : String) (n : ℕ) (s : Store) → count k (incrby k n s) ≡ count k s + n
  pub count-incrby_other :
      (j k : String) (n : ℕ) (s : Store) → str_eq j k ≡ false → count j (incrby k n s) ≡ count j s
  pub has_ttl-incrby : (j k : String) (n : ℕ) (s : Store) → has_ttl j (incrby k n s) ≡ has_ttl j s
  -- EXPIRE changes no value, and no other key.
  pub count-expire : (j k : String) (t : ℕ) (s : Store) → count j (expire k t s) ≡ count j s
  pub has_ttl-expire_self : (k : String) (t : ℕ) (s : Store) → has_ttl k (expire k t s) ≡ true
  pub has_ttl-expire_other :
      (j k : String) (t : ℕ) (s : Store)
      → str_eq j k ≡ false
      → has_ttl j (expire k t s) ≡ has_ttl j s
  -- SET replaces the value and the time to live of its key alone.
  pub count-set_ex_self : (k : String) (n t : ℕ) (s : Store) → count k (set_ex k n t s) ≡ n
  pub count-set_ex_other :
      (j k : String) (n t : ℕ) (s : Store)
      → str_eq j k ≡ false
      → count j (set_ex k n t s) ≡ count j s
  pub has_ttl-set_ex_self : (k : String) (n t : ℕ) (s : Store) → has_ttl k (set_ex k n t s) ≡ true
  pub has_ttl-set_ex_other :
      (j k : String) (n t : ℕ) (s : Store)
      → str_eq j k ≡ false
      → has_ttl j (set_ex k n t s) ≡ has_ttl j s
