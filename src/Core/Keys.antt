-- ===== src/Core/Keys.antt =====
-- The keys of the Valkey server, as locks and markers use them: SET NX with a time to live, GET and
-- DEL. The server is not part of the repository; its documented laws stand for a stretch of time in
-- which no key expires.
use blank.Prelude.{ℕ, ◌≡◌, Bool, false, Option, none, some, String, str_eq, if◌then◌else◌, is_none}

pub record Keys : Type 1 where
  pub Store : Type 0
  -- The value of a key that lives.
  pub value : String → Store → Option String
  -- SET NX EX: writes if the key is absent; the answer is whether it was.
  pub set_nx : String → String → ℕ → Store → Bool × Store
  pub delete : String → Store → Store
  pub set_nx-answer :
      (k v : String) (ttl : ℕ) (s : Store) → (set_nx k v ttl s).0 ≡ is_none (value k s)
  pub value-set_nx_self :
      (k v : String) (ttl : ℕ) (s : Store)
      → value k (set_nx k v ttl s).1 ≡ (if is_none (value k s) then some v else value k s)
  pub value-set_nx_other :
      (j k v : String) (ttl : ℕ) (s : Store)
      → str_eq j k ≡ false
      → value j (set_nx k v ttl s).1 ≡ value j s
  pub value-delete_self : (k : String) (s : Store) → value k (delete k s) ≡ none
  pub value-delete_other :
      (j k : String) (s : Store) → str_eq j k ≡ false → value j (delete k s) ≡ value j s
