-- ===== src/Ai/Policy.antt =====
-- apps/api/app/ai/policy.py: the policy of a tenant, and the choice of provider and model.
use blank.Prelude.{
  ℕ, ◌≡◌, refl, ◌⊎◌, Bool, true, false, not, ◌&&◌, Option, none, some, List, [], ◌∷◌, String,
  str_eq, arith, if◌then◌else◌, or_default, Result, ok, err,
}
use blank.Prelude.Text.{contains, lookup}
use blank.Core.Crypto.{KeyProvider}
use blank.Auth.Models.{AuthError}

abbrev pub zero_retention_providers : List String
zero_retention_providers = "mistral" ∷ []

-- `PolicyError`, by message.
pub data PolicyError : Type 0 where
  provider_not_allowed provider_retains_data : PolicyError

pub record ResolvedPolicy : Type 0 where
  pub slug : String
  pub default_provider : String
  pub default_model : String
  pub allowed_providers : List String
  pub zero_retention : Bool
  pub monthly_token_quota : ℕ
  pub hard_limit_enabled : Bool
  pub fallback_provider : Option String
  pub fallback_model : Option String
  pub byok_keys : List (String × String)

-- Python's `text or default`: an empty text counts as none.
abbrev pub or_text : Option String → String → String
or_text none default = default
or_text (some text) default = if str_eq text "" then default else text

abbrev pub is_empty : List String → Bool
is_empty [] = true
is_empty (_ ∷ _) = false

-- `self.allowed_providers and provider not in self.allowed_providers`
is_barred : ResolvedPolicy → String → Bool
is_barred policy provider =
    not (is_empty policy.allowed_providers) && not (contains policy.allowed_providers provider)

-- `self.zero_retention and provider not in ZERO_RETENTION_PROVIDERS`
is_retaining : ResolvedPolicy → String → Bool
is_retaining policy provider =
    policy.zero_retention && not (contains zero_retention_providers provider)

pub select : ResolvedPolicy → Option String → Option String → Result PolicyError (String × String)
select policy provider model =
    let resolved_provider = or_text provider policy.default_provider in
    let resolved_model = or_text model policy.default_model in
    if is_barred policy resolved_provider
    then err provider_not_allowed
    else (if is_retaining policy resolved_provider
        then err provider_retains_data
        else ok (resolved_provider, resolved_model))

pub byok_key_for : ResolvedPolicy → String → Option String
byok_key_for policy provider = lookup provider policy.byok_keys

-- apps/api/app/ai/models.py: the row of a tenant's policy.
pub record TenantAiPolicy : Type 0 where
  pub default_provider : Option String
  pub default_model : Option String
  pub allowed_providers : List String
  pub zero_retention : Bool
  pub monthly_token_quota : Option ℕ
  pub hard_limit_enabled : Bool
  pub fallback_provider : Option String
  pub fallback_model : Option String
  pub byok_keys_enc : Option (List ℕ)

-- The platform's defaults among the settings.
pub record AiSettings : Type 0 where
  pub ai_default_provider : String
  pub ai_default_model : String
  pub ai_quota_default_monthly_tokens : ℕ
  pub mistral_api_key : String
  pub anthropic_api_key : String
  pub openai_api_key : String

-- `parse_keys` reads the JSON object of the decrypted keys.
module _ (settings : AiSettings) (kp : KeyProvider)
    (parse_keys : List ℕ → List (String × String)) where
  pub decrypt_byok : Option (List ℕ) → Result AuthError (List (String × String))
  decrypt_byok none = ok []
  decrypt_byok (some []) = ok []
  decrypt_byok (some (b ∷ sealed)) = elim (kp.decrypt (b ∷ sealed)) [
    | ok raw ↦ ok (parse_keys raw)
    | err e ↦ err e
  ]

  pub resolve_record : String → Option TenantAiPolicy → Result AuthError ResolvedPolicy
  resolve_record slug none = ok (record {
    slug = slug;
    default_provider = settings.ai_default_provider;
    default_model = settings.ai_default_model;
    allowed_providers = [];
    zero_retention = false;
    monthly_token_quota = settings.ai_quota_default_monthly_tokens;
    hard_limit_enabled = false;
    fallback_provider = none;
    fallback_model = none;
    byok_keys = [];
  })
  resolve_record slug (some row) = elim (decrypt_byok row.byok_keys_enc) [
    | err e ↦ err e
    | ok keys ↦ ok (record {
      slug = slug;
      default_provider = or_text row.default_provider settings.ai_default_provider;
      default_model = or_text row.default_model settings.ai_default_model;
      allowed_providers = row.allowed_providers;
      zero_retention = row.zero_retention;
      monthly_token_quota =
          or_default row.monthly_token_quota settings.ai_quota_default_monthly_tokens;
      hard_limit_enabled = row.hard_limit_enabled;
      fallback_provider = row.fallback_provider;
      fallback_model = row.fallback_model;
      byok_keys = keys;
    })
  ]

-- A provider that the policy admits: it is listed, if providers are listed, and keeps no data, if
-- the tenant asks for that.
abbrev pub IsCompliant : ResolvedPolicy → String → Type 0
IsCompliant policy provider =
    ((policy.allowed_providers ≡ []) ⊎ (contains policy.allowed_providers provider ≡ true))
    × ((policy.zero_retention ≡ false) ⊎ (contains zero_retention_providers provider ≡ true))

empty_list : (xs : List String) → is_empty xs ≡ true → xs ≡ []
empty_list [] h = refl
empty_list (_ ∷ _) h = cc

-- Whatever is selected is compliant.
pub select-IsCompliant :
    (policy : ResolvedPolicy) (provider model : Option String) {p m : String}
    → select policy provider model ≡ ok (p, m)
    → IsCompliant policy p
unfolding select is_barred is_retaining
select-IsCompliant policy provider model {p} {m} e =
    let none_listed = empty_list policy.allowed_providers in
    (ground (arith, none_listed), ground arith)
