-- ===== src/Tests/Ai.antt =====
-- The theorems of the gateway, its prices and quotas for one tenant.
use blank.Prelude.{
  ℕ, ◌+◌, ◌≡◌, refl, Bool, true, false, Option, none, some, List, [], ◌∷◌, String, if◌then◌else◌,
}
use blank.Prelude.Lists.{length}
use blank.Ai.Gateway.{
  ChatRequest, Call, Reply, GatewayState, UsageRecord, chat, completed, timed_out,
}
use blank.Ai.Gateway.Metered.{AreMetered, AllCompliant, chat-Holds}
use blank.Ai.Policy.{AiSettings, ResolvedPolicy}
use blank.Ai.Pricing.{TokenUsage}
use blank.Ai.Quota.{Calendar, QuotaState, record_day}
use blank.Ai.Quota.Alerts.{alerted_count, any_over, is_marked, record_day_alerts}
use blank.Tests.{counters, no_counts, keys, no_keys}

abbrev usage : ℕ → ℕ → ℕ → TokenUsage
usage i o c = record { input_tokens = i; output_tokens = o; cached_tokens = c }

abbrev cal : Calendar
cal = record { show_id = λ id. "t"; month_of = λ now. "2026-01"; day_of = λ now. "2026-01-02" }

abbrev fresh : QuotaState (String → ℕ × Bool) (String → Option String)
fresh = record { counters = no_counts; keys = no_keys; audit = [] }

abbrev day : List (ℕ × ℕ)
day = (60, 100) ∷ (60, 100) ∷ (5, 100) ∷ []

record_day_alerts_example :
    let (outcomes, s') = record_day cal counters keys 1 5 day fresh in
    (alerted_count outcomes
      ≡ (if is_marked cal counters keys 1 5 fresh then 0 else if any_over outcomes then 1 else 0))
    × (length s'.audit ≡ alerted_count outcomes + 0)
record_day_alerts_example = record_day_alerts cal counters keys 1 5 day fresh

abbrev platform : AiSettings
platform = record {
  ai_default_provider = "mistral";
  ai_default_model = "mistral-small-latest";
  ai_quota_default_monthly_tokens = 100;
  mistral_api_key = "m";
  anthropic_api_key = "";
  openai_api_key = "o";
}

abbrev policy : ResolvedPolicy
policy = record {
  slug = "acme";
  default_provider = "openai";
  default_model = "gpt-4o";
  allowed_providers = "openai" ∷ "mistral" ∷ [];
  zero_retention = false;
  monthly_token_quota = 100;
  hard_limit_enabled = false;
  fallback_provider = some "mistral";
  fallback_model = some "mistral-small-latest";
  byok_keys = [];
}

abbrev question : ChatRequest
question = record {
  messages = "hello" ∷ [];
  provider = none;
  model = none;
  temperature = none;
  max_tokens = none;
  tools = none;
  module_ = "core";
  user_id = none;
}

-- The first call fails, the fallback answers.
abbrev complete : List Call → Call → Reply
complete [] call = timed_out
complete (_ ∷ _) call = completed (record { usage = none; choices = [] })

abbrev silent : GatewayState (QuotaState (String → ℕ × Bool) (String → Option String))
silent = record { calls = []; events = []; quota = fresh }

-- The row of the first call is lost.
abbrev inserted : List Call → UsageRecord → Bool
inserted [] row = true
inserted (_ ∷ []) row = false
inserted (_ ∷ _ ∷ _) row = true

chat-Holds_example :
    let s' = (chat platform cal counters keys complete inserted 1 5 policy question silent).1 in
    AreMetered inserted s'.events s'.calls × AllCompliant policy s'.calls
chat-Holds_example =
    chat-Holds platform cal counters keys complete inserted 1 5 policy question silent refl tt
