-- ===== src/Ai/Gateway.antt =====
-- apps/api/app/ai/gateway.py and metering.py: the gateway to the providers. The completion and
-- embedding functions are LiteLLM's, replaceable in the source, and a parameter here.
pub mod Metered
use Prim.Native.String
use blank.Prelude.{
  ℕ, ◌+◌, Bool, true, false, Option, none, some, List, [], ◌∷◌, String, str_eq, ltb, if◌then◌else◌,
  or_default, Result, ok, err, Exec, pure, raise, lift, ◌>>=◌, ◌>>◌, map_err,
}
use blank.Core.Counters.{Counters}
use blank.Core.Keys.{Keys}
use blank.Ai.Policy.{AiSettings, PolicyError, ResolvedPolicy, select, byok_key_for}
use blank.Ai.Pricing.{TokenUsage, estimate_cost}
use blank.Ai.Quota.{Calendar, QuotaState, State, record_and_alert}

pub data UsageStatus : Type 0 where
  status_ok status_error status_timeout : UsageStatus

-- `ChatRequest`; the messages and tools are the texts that are handed on.
pub record ChatRequest : Type 0 where
  pub messages : List String
  pub provider : Option String
  pub model : Option String
  pub temperature : Option String
  pub max_tokens : Option ℕ
  pub tools : Option (List String)
  pub module_ : String
  pub user_id : Option ℕ

-- The arguments of a call.
pub record Call : Type 0 where
  pub provider : String
  pub model : String
  pub messages : List String
  pub api_key : String
  pub temperature : Option String
  pub max_tokens : Option ℕ
  pub tools : Option (List String)

-- What the extraction reads of a response: attributes may be missing.
pub record RawUsage : Type 0 where
  pub prompt_tokens : Option ℕ
  pub completion_tokens : Option ℕ
  pub prompt_tokens_details : Option (Option ℕ)

pub record Choice : Type 0 where
  pub content : Option String
  pub finish_reason : Option String
  pub tool_calls : List (Option String × Option String × Option String)

pub record Raw : Type 0 where
  pub usage : Option RawUsage
  pub choices : List Choice

-- How a call ends: after the time allowed, with an exception of some kind, or with a response.
pub data Reply : Type 0 where
  timed_out : Reply
  failed : String → Reply
  completed : Raw → Reply

pub data GatewayError : Type 0 where
  call_failed : GatewayError
  provider_unavailable : GatewayError
  refused : PolicyError → GatewayError

-- `UsageRecord`, the metering's row.
pub record UsageRecord : Type 0 where
  pub tenant_id : ℕ
  pub user_id : Option ℕ
  pub module_ : String
  pub provider : String
  pub model : String
  pub status : UsageStatus
  pub usage : TokenUsage
  pub estimated_cost_microeur : ℕ
  pub error_kind : Option String

pub record ChatResult : Type 0 where
  pub content : String
  pub provider : String
  pub model : String
  pub usage : TokenUsage
  pub finish_reason : Option String
  pub tool_calls : Option (List (Option String × Option String × Option String))

-- The calls made, newest first, the rows of the metering, and the quota's server.
pub record GatewayState (Q : Type 0) : Type 0 where
  pub calls : List Call
  pub events : List UsageRecord
  pub quota : Q

abbrev pub no_usage : TokenUsage
no_usage = record { input_tokens = 0; output_tokens = 0; cached_tokens = 0 }

pub cached_of : Option (Option ℕ) → ℕ
cached_of none = 0
cached_of (some cached) = or_default cached 0

-- `_usage_from`
pub usage_from : Option RawUsage → TokenUsage
unfolding cached_of
usage_from none = no_usage
usage_from (some usage) = record {
  input_tokens = or_default usage.prompt_tokens 0;
  output_tokens = or_default usage.completion_tokens 0;
  cached_tokens = cached_of usage.prompt_tokens_details;
}

pub first_choice : List Choice → Option Choice
first_choice [] = none
first_choice (choice ∷ _) = some choice

-- `_normalize_tool_calls`: no calls are none.
pub normalize_tool_calls :
    List (Option String × Option String × Option String)
    → Option (List (Option String × Option String × Option String))
normalize_tool_calls [] = none
normalize_tool_calls (call ∷ calls) = some (call ∷ calls)

pub chat_result : String → String → TokenUsage → Option Choice → ChatResult
unfolding normalize_tool_calls
chat_result provider model usage none = record {
  content = "";
  provider = provider;
  model = model;
  usage = usage;
  finish_reason = none;
  tool_calls = none;
}
chat_result provider model usage (some choice) = record {
  content = or_default choice.content "";
  provider = provider;
  model = model;
  usage = usage;
  finish_reason = choice.finish_reason;
  tool_calls = normalize_tool_calls choice.tool_calls;
}

pub platform_key : AiSettings → String → String
platform_key settings provider =
    if str_eq provider "mistral"
    then settings.mistral_api_key
    else (if str_eq provider "anthropic"
        then settings.anthropic_api_key
        else (if str_eq provider "openai" then settings.openai_api_key else ""))

checked_key : String → Result GatewayError String
checked_key platform = if str_eq platform "" then err provider_unavailable else ok platform

or_platform : Option String → String → Result GatewayError String
unfolding checked_key
or_platform none platform = checked_key platform
or_platform (some byok) platform = if str_eq byok "" then checked_key platform else ok byok

-- `_api_key`: the tenant's own key first, then the platform's.
pub api_key : AiSettings → String → ResolvedPolicy → Result GatewayError String
unfolding or_platform platform_key
api_key settings provider policy =
    or_platform (byok_key_for policy provider) (platform_key settings provider)

-- `complete calls call` is the answer of LiteLLM to a call after earlier ones, and `inserted calls row`
-- is whether the database takes the row of the last of the calls: a failure is logged only.
module _ (settings : AiSettings) (cal : Calendar) (v : Counters) (keys : Keys)
    (complete : List Call → Call → Reply) (inserted : List Call → UsageRecord → Bool)
    (tenant_id now : ℕ) where
  -- `record_usage`
  pub record_usage : List Call → UsageRecord → List UsageRecord → List UsageRecord
  record_usage calls row events = if inserted calls row then row ∷ events else events

  abbrev pub Gateway : Type 0 → Type 0
  Gateway A = Exec (GatewayState (State cal v keys)) GatewayError A

  -- `_meter_wrap`, with the row of `record_usage` and the count of the tokens.
  pub meter_wrap :
      ResolvedPolicy
      → String
      → Option ℕ
      → String
      → String
      → UsageStatus
      → TokenUsage
      → Option String
      → Gateway (Unit {0})
  unfolding record_usage
  meter_wrap policy module_ user_id provider model status usage error_kind s =
      let row : UsageRecord = record {
        tenant_id = tenant_id;
        user_id = user_id;
        module_ = module_;
        provider = provider;
        model = model;
        status = status;
        usage = usage;
        estimated_cost_microeur = estimate_cost provider model usage;
        error_kind = error_kind;
      } in
      let total = usage.input_tokens + usage.output_tokens in
      let quota =
        if ltb 0 total
        then (record_and_alert cal v keys tenant_id now total policy.monthly_token_quota s.quota).1
        else s.quota in
      (ok tt, record { calls = s.calls; events = record_usage s.calls row s.events; quota = quota })

  abbrev ask : Call → Gateway Reply
  ask call s = (ok (complete s.calls call), record s { calls = call ∷ s.calls })

  -- What follows the call, by its end: each branch meters it.
  pub settle : ResolvedPolicy → String → String → ChatRequest → Reply → Gateway ChatResult
  settle policy provider model request timed_out = do
    meter_wrap policy request.module_ request.user_id provider model status_timeout no_usage
        (some "timeout")
    raise call_failed
  settle policy provider model request (failed kind) = do
    meter_wrap policy request.module_ request.user_id provider model status_error no_usage
        (some kind)
    raise call_failed
  settle policy provider model request (completed raw) = do
    let usage = usage_from raw.usage
    meter_wrap policy request.module_ request.user_id provider model status_ok usage none
    pure (chat_result provider model usage (first_choice raw.choices))

  pub chat_once : ResolvedPolicy → String → String → ChatRequest → Gateway ChatResult
  chat_once policy provider model request = do
    key ← lift (api_key settings provider policy)
    reply ← ask (record {
      provider = provider;
      model = model;
      messages = request.messages;
      api_key = key;
      temperature = request.temperature;
      max_tokens = request.max_tokens;
      tools = request.tools;
    })
    settle policy provider model request reply

  -- `except GatewayError`: without a fallback the error goes on; its target passes the same
  -- selection.
  pub fall_back : ResolvedPolicy → ChatRequest → GatewayError → Option String → Gateway ChatResult
  fall_back policy request e none = raise e
  fall_back policy request e (some target) = do
    (provider, model) ← lift (map_err refused (select policy (some target) policy.fallback_model))
    chat_once policy provider model request

  -- The `try` of `chat`, once the first call has ended.
  pub answer_or_fall_back :
      ResolvedPolicy → ChatRequest → Result GatewayError ChatResult → Gateway ChatResult
  answer_or_fall_back policy request (ok result) = pure result
  answer_or_fall_back policy request (err e) = fall_back policy request e policy.fallback_provider

  -- `chat`, on the policy that `_load_policy` resolves.
  pub chat : ResolvedPolicy → ChatRequest → Gateway ChatResult
  chat policy request = do
    (provider, model) ← lift (map_err refused (select policy request.provider request.model))
    λ s.
        (let (r, s₁) = chat_once policy provider model request s in
          answer_or_fall_back policy request r s₁)
