-- ===== src/Ai/Gateway/Metered.antt =====
-- apps/api/app/ai/gateway.py: the calls of `chat` and their rows in the metering.
use blank.Prelude.{
  ℕ, ◌≡◌, refl, ◌⊎◌, inl, inr, Bool, true, false, Bool-cases, Option, none, some, List, [], ◌∷◌,
  String, Result, Result-cases, ok, err,
}
use blank.Prelude.Table.{All}
use blank.Core.Counters.{Counters}
use blank.Core.Keys.{Keys}
use blank.Ai.Policy.{AiSettings, ResolvedPolicy, IsCompliant, select, select-IsCompliant}
use blank.Ai.Quota.{Calendar, State}
use blank.Ai.Gateway.{
  ChatRequest, Call, Reply, GatewayError, UsageRecord, ChatResult, GatewayState, timed_out, failed,
  completed, api_key, record_usage, meter_wrap, settle, chat_once, fall_back, answer_or_fall_back,
  chat,
}

-- A row is about a call: the same provider and model.
abbrev IsRowOf : UsageRecord → Call → Type 0
IsRowOf row call = (row.provider ≡ call.provider) × (row.model ≡ call.model)

-- The rows answer the calls in order, one each, but for the calls whose row was refused.
abbrev pub AreMetered : (List Call → UsageRecord → Bool) → List UsageRecord → List Call → Type 0
AreMetered inserted rows [] = rows ≡ []
AreMetered inserted rows (call ∷ calls) =
    (row : UsageRecord) × IsRowOf row call
    × ((inserted (call ∷ calls) row ≡ true)
          × ((rest : List UsageRecord) × (rows ≡ row ∷ rest) × AreMetered inserted rest calls)
        ⊎ (inserted (call ∷ calls) row ≡ false) × AreMetered inserted rows calls)

abbrev pub AllCompliant : ResolvedPolicy → List Call → Type 0
AllCompliant policy calls = All (λ (call : Call). IsCompliant policy call.provider) calls

module _ (settings : AiSettings) (cal : Calendar) (v : Counters) (keys : Keys)
    (complete : List Call → Call → Reply) (inserted : List Call → UsageRecord → Bool)
    (tenant_id now : ℕ) where
  abbrev Holds : ResolvedPolicy → GatewayState (State cal v keys) → Type 0
  Holds policy s = AreMetered inserted s.events s.calls × AllCompliant policy s.calls

  recorded :
      (row : UsageRecord) (call : Call) (calls : List Call) (events : List UsageRecord)
      → IsRowOf row call
      → AreMetered inserted events calls
      → AreMetered inserted
          (record_usage settings cal v keys complete inserted tenant_id now
            (call ∷ calls)
            row
            events)
          (call ∷ calls)
  unfolding record_usage
  recorded row call calls events same m = elim (Bool-cases (inserted (call ∷ calls) row)) [
    | inl stored ↦ (row, same, inl (stored, (events, rw stored refl, m)))
    | inr lost ↦ (row, same, inr (lost, rw lost m))
  ]

  -- A call that is settled has its row, unless this was refused.
  settle-Holds :
      (policy : ResolvedPolicy) (request : ChatRequest) (call : Call) (reply : Reply)
      (s : GatewayState (State cal v keys))
      → IsCompliant policy call.provider
      → Holds policy s
      → Holds policy
          (settle settings cal v keys complete inserted tenant_id now policy call.provider
            call.model request reply
            (record s { calls = call ∷ s.calls })).1
  unfolding settle meter_wrap
  settle-Holds policy request call timed_out s c (m, all) =
      (recorded _ call s.calls s.events (refl, refl) m, (c, all))
  settle-Holds policy request call (failed kind) s c (m, all) =
      (recorded _ call s.calls s.events (refl, refl) m, (c, all))
  settle-Holds policy request call (completed raw) s c (m, all) =
      (recorded _ call s.calls s.events (refl, refl) m, (c, all))

  chat_once-Holds :
      (policy : ResolvedPolicy) (provider model : String) (request : ChatRequest)
      (s : GatewayState (State cal v keys))
      → IsCompliant policy provider
      → Holds policy s
      → Holds policy
          (chat_once settings cal v keys complete inserted tenant_id now policy provider model
            request s).1
  unfolding chat_once
  chat_once-Holds policy provider model request s c h =
      elim (Result-cases (api_key settings provider policy)) [
        | inr (e, none_set) ↦ rw none_set h
        | inl (key, found) ↦ rw found (settle-Holds policy request _ _ s c h)
      ]

  fall_back-Holds :
      (policy : ResolvedPolicy) (request : ChatRequest) (e : GatewayError) (target : Option String)
      (s : GatewayState (State cal v keys))
      → Holds policy s
      → Holds policy
          (fall_back settings cal v keys complete inserted tenant_id now policy request e target
            s).1
  unfolding fall_back
  fall_back-Holds policy request e none s h = h
  fall_back-Holds policy request e (some target) s h =
      elim (Result-cases (select policy (some target) policy.fallback_model)) [
        | inr (x, refusal) ↦ rw refusal h
        | inl ((provider, model), chosen) ↦
            let c = select-IsCompliant policy (some target) policy.fallback_model chosen in
            rw chosen (chat_once-Holds policy provider model request s c h)
      ]

  answer-Holds :
      (policy : ResolvedPolicy) (request : ChatRequest) (r : Result GatewayError ChatResult)
      (s : GatewayState (State cal v keys))
      → Holds policy s
      → Holds policy
          (answer_or_fall_back settings cal v keys complete inserted tenant_id now policy request r
            s).1
  unfolding answer_or_fall_back
  answer-Holds policy request (ok result) s h = h
  answer-Holds policy request (err e) s h =
      fall_back-Holds policy request e policy.fallback_provider s h

  -- If the calls so far have their rows in the metering, in order and with their provider and model,
  -- but for those whose row the database refused, and went to providers that the tenant's policy
  -- admits, so it is after `chat`, whatever it returns, with the calls that it made, that of a
  -- fallback included.
  pub chat-Holds :
      (policy : ResolvedPolicy) (request : ChatRequest) (s : GatewayState (State cal v keys))
      → AreMetered inserted s.events s.calls
      → AllCompliant policy s.calls
      → let s' = (chat settings cal v keys complete inserted tenant_id now policy request s).1 in
        AreMetered inserted s'.events s'.calls × AllCompliant policy s'.calls
  unfolding chat
  chat-Holds policy request s m all =
      elim (Result-cases (select policy request.provider request.model)) [
        | inr (x, refusal) ↦ rw refusal (m, all)
        | inl ((provider, model), chosen) ↦
            let c = select-IsCompliant policy request.provider request.model chosen in
            let once = chat_once-Holds policy provider model request s c (m, all) in
            rw chosen (answer-Holds policy request _ _ once)
      ]
