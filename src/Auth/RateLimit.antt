-- ===== src/Auth/RateLimit.antt =====
-- apps/api/app/auth/rate_limit.py: counters of a fixed window, for the client's address and for
-- what the request aims at.
pub mod Window
use Prim.Native.String
use Prim.Native.String.{[], ◌∷◌}
use blank.Prelude.{
  ℕ, zero, suc, Bool, true, false, List, [], ◌∷◌, String, str_eq, ltb, ◌==◌, if◌then◌else◌, Result,
  ok, err, Exec, pure, ◌>>=◌, ◌>>◌,
}
use blank.Core.Config.{Env}
use blank.Core.Counters.{Counters}

-- `HTTPException`, by its status code, and an error that no handler catches.
pub data HttpError : Type 0 where
  http_error : ℕ → HttpError

-- The first characters of a text, `text[:n]`.
take_text : ℕ → String → String
take_text zero s = ""
take_text (suc n) String.[] = ""
take_text (suc n) (String.◌∷◌ c s) = String.◌∷◌ c (take_text n s)

module _ (env : Env) where
  -- `_key(scope, identifier)`
  unfoldable pub limit_key : String → String → String
  unfolding take_text
  limit_key scope identifier =
      String.◌++◌ "rl:"
        (String.◌++◌ scope (String.◌++◌ ":" (take_text 32 (env.sha256_hex (env.lower identifier)))))

  unfoldable pub identifier_keys : String → List String → List String
  identifier_keys scope [] = []
  identifier_keys scope (ident ∷ idents) =
      if str_eq ident ""
      then identifier_keys scope idents
      else limit_key scope ident ∷ identifier_keys scope idents

  -- The address comes first, then the identifiers that are not empty.
  unfoldable pub limit_keys : String → String → List String → List String
  unfolding limit_key identifier_keys
  limit_keys scope client_ip identifiers =
      limit_key scope client_ip ∷ identifier_keys scope identifiers

module _ (env : Env) (v : Counters) where
  -- One round of the loop: INCR, EXPIRE at the first hit, and the test.
  unfoldable pub hit : String → Exec v.Store HttpError (Unit {0})
  hit key s =
      let s₁ = v.incrby key 1 s in
      let s₂ =
        if v.count key s₁ == 1
        then v.expire key env.settings.auth_rate_limit_window_seconds s₁
        else s₁ in
      (
        if ltb env.settings.auth_rate_limit_attempts (v.count key s₁)
            then err (http_error 429)
            else ok tt,
        s₂,
      )

  unfoldable pub enforce_keys : List String → Exec v.Store HttpError (Unit {0})
  enforce_keys [] = pure tt
  enforce_keys (key ∷ keys) = do hit key; enforce_keys keys

  unfoldable pub enforce_rate_limit :
      String → String → List String → Exec v.Store HttpError (Unit {0})
  unfolding enforce_keys
  enforce_rate_limit scope client_ip identifiers =
      enforce_keys (limit_keys env scope client_ip identifiers)
