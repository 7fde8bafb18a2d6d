-- ===== src/Ai/Quota.antt =====
-- apps/api/app/ai/quota.py: the soft monthly quota of a tenant, counted in Valkey after each call,
-- and the alert, at most one a day, with its row in the tenant's audit log.
pub mod Alerts
use Prim.Native.String
use blank.Prelude.{ℕ, ◌*◌, Bool, true, false, List, [], ◌∷◌, String, ltb, ◌==◌, if◌then◌else◌, max}
use blank.Core.Counters.{Counters}
use blank.Core.Keys.{Keys}

-- The texts of an identifier, of a month `%Y-%m` and of a day `%Y-%m-%d`, as Python prints them.
pub record Calendar : Type 0 where
  pub show_id : ℕ → String
  pub month_of : ℕ → String
  pub day_of : ℕ → String

abbrev pub month_ttl_seconds : ℕ
month_ttl_seconds = 62 * 24 * 3600

abbrev pub alert_ttl_seconds : ℕ
alert_ttl_seconds = 24 * 3600

-- The row of `record_audit_event` for `core.ai.quota_exceeded`.
pub record QuotaAlert : Type 0 where
  pub tenant_id : ℕ
  pub resource_id : String
  pub month_usage : ℕ
  pub monthly_token_quota : ℕ

pub record QuotaOutcome : Type 0 where
  pub month_usage : ℕ
  pub over_quota : Bool
  pub alerted : Bool

module _ (cal : Calendar) where
  unfoldable pub month_key : ℕ → ℕ → String
  month_key tenant_id now =
      String.◌++◌ "ai:quota:"
        (String.◌++◌ (cal.show_id tenant_id) (String.◌++◌ ":" (cal.month_of now)))

  pub alert_key : ℕ → ℕ → String
  alert_key tenant_id now =
      String.◌++◌ "ai:quota:alert:"
        (String.◌++◌ (cal.show_id tenant_id) (String.◌++◌ ":" (cal.day_of now)))

-- The counters and the keys of the server, and the audit logs.
pub record QuotaState (C K : Type 0) : Type 0 where
  pub counters : C
  pub keys : K
  pub audit : List QuotaAlert

module _ (cal : Calendar) (v : Counters) (keys : Keys) where
  abbrev pub State : Type 0
  State = QuotaState v.Store keys.Store

  pub current_usage : ℕ → ℕ → State → ℕ
  current_usage tenant_id now s = v.count (month_key cal tenant_id now) s.counters

  -- The counter after the increment; the first write of a month sets its time to live.
  pub added : String → ℕ → v.Store → v.Store
  added key tokens c =
      let c₁ = v.incrby key tokens c in
      if v.count key c₁ == tokens then v.expire key month_ttl_seconds c₁ else c₁

  -- Token counts are not negative, so that `max(tokens, 0)` is the count.
  pub add_usage : ℕ → ℕ → ℕ → State → ℕ × State
  unfolding added
  add_usage tenant_id now tokens s =
      let key = month_key cal tenant_id now in
      let s' = record s { counters = added key tokens s.counters } in (v.count key s'.counters, s')

  pub reconcile : ℕ → ℕ → ℕ → State → State
  reconcile tenant_id now month_total s = record s {
    counters = v.set_ex (month_key cal tenant_id now) month_total month_ttl_seconds s.counters;
  }

  pub emit_alert_once : ℕ → ℕ → ℕ → ℕ → State → Bool × State
  emit_alert_once tenant_id now month_usage quota s =
      let (acquired, k) = keys.set_nx (alert_key cal tenant_id now) "1" alert_ttl_seconds s.keys in
      if acquired
      then (
        true,
        record s {
          keys = k;
          audit =
              record {
                tenant_id = tenant_id;
                resource_id = cal.month_of now;
                month_usage = month_usage;
                monthly_token_quota = quota;
              }
              ∷ s.audit;
        },
      )
      else (false, record s { keys = k })

  pub outcome_of : Bool → ℕ → Bool × State → QuotaOutcome × State
  outcome_of over usage (alerted, s) =
      (record { month_usage = usage; over_quota = over; alerted = alerted }, s)

  pub record_and_alert : ℕ → ℕ → ℕ → ℕ → State → QuotaOutcome × State
  unfolding outcome_of
  record_and_alert tenant_id now tokens quota s =
      let (month_usage, s₁) = add_usage tenant_id now tokens s in
      if ltb quota month_usage
      then outcome_of true month_usage (emit_alert_once tenant_id now month_usage quota s₁)
      else outcome_of false month_usage (false, s₁)

  -- The calls of a tenant within one day: each adds its tokens under the quota of its policy.
  pub record_day : ℕ → ℕ → List (ℕ × ℕ) → State → List QuotaOutcome × State
  record_day tenant_id now [] s = ([], s)
  record_day tenant_id now ((tokens, quota) ∷ calls) s =
      let (outcome, s₁) = record_and_alert tenant_id now tokens quota s in
      let (outcomes, s₂) = record_day tenant_id now calls s₁ in (outcome ∷ outcomes, s₂)
