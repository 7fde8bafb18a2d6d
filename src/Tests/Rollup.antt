-- ===== src/Tests/Rollup.antt =====
-- The daily task's theorems at two calls of one day.
use blank.Prelude.{
  ℕ, ◌-◌, ◌/◌, ◌≡◌, refl, Option, none, List, [], ◌∷◌, String, arith, leb, ◌==◌, if◌then◌else◌,
  or_default, Bool,
}
use blank.Prelude.Table.{select}
use blank.Ai.Quota.{Calendar, QuotaState, current_usage, month_key}
use blank.Ai.Gateway.{status_ok}
use blank.Ai.Rollup.{
  UsageEvent, UsageKey, RollupState, run_daily_rollup, aggregate_day, reconcile_month_quotas,
  day_seconds,
}
use blank.Ai.Rollup.Totals.{totals_if_any, of_key}
use blank.Ai.Rollup.Daily.{daily_of, written, events_of_day, run_daily_rollup-replays}
use blank.Ai.Rollup.Months.{usage_if_any, reconcile_month_quotas-usage}
use blank.Tests.{counters, no_counts, keys, no_keys}

abbrev cal : Calendar
cal = record { show_id = λ id. "t"; month_of = λ now. "2026-01"; day_of = λ now. "2026-01-02" }

abbrev call_at : ℕ → ℕ → UsageEvent
call_at at tokens = record {
  occurred_at = at;
  row = record {
    tenant_id = 1;
    user_id = none;
    module_ = "core";
    provider = "mistral";
    model = "m";
    status = status_ok;
    usage = record { input_tokens = tokens; output_tokens = 5; cached_tokens = 0 };
    estimated_cost_microeur = 3;
    error_kind = none;
  };
}

abbrev calls : List UsageEvent
calls = call_at 86400 10 ∷ call_at 90000 20 ∷ call_at 172900 40 ∷ []

abbrev no_quota : QuotaState (String → ℕ × Bool) (String → Option String)
no_quota = record { counters = no_counts; keys = no_keys; audit = [] }

abbrev before : RollupState (QuotaState (String → ℕ × Bool) (String → Option String))
before = record { events = calls; daily = []; quota = no_quota }

abbrev mistral : UsageKey
mistral = record { tenant_id = 1; provider = "mistral"; model = "m" }

run_daily_rollup-replays_example :
    let yesterday = (180000 - day_seconds) / day_seconds in
    let s' = (run_daily_rollup cal counters keys (λ now. 0) 90 180000 before).1 in
    (daily_of yesterday mistral s'.daily
      ≡ written yesterday mistral
          (totals_if_any (of_key mistral (events_of_day yesterday calls)))
          (daily_of yesterday mistral []))
    × (daily_of 1 mistral (aggregate_day yesterday s'.events s'.daily).1
        ≡ daily_of 1 mistral s'.daily)
run_daily_rollup-replays_example =
    run_daily_rollup-replays cal counters keys (λ now. 0) 90 180000 1 mistral before (omega arith)

-- Another tenant, with another key.
abbrev named : Calendar
named = record cal { show_id = λ id. if id == 1 then "a" else "b" }

abbrev call_of_other : UsageEvent
call_of_other = record (call_at 90001 7) { row = record (call_at 90001 7).row { tenant_id = 2 } }

reconcile_month_quotas-usage_example :
    let events = call_of_other ∷ calls in
    current_usage named counters keys 1 100000
      (reconcile_month_quotas named counters keys (λ now. 86400) 100000 events no_quota)
    ≡ or_default
        (usage_if_any
          (select (λ e. e.row.tenant_id == 1) (select (λ e. leb 86400 e.occurred_at) events)))
        (current_usage named counters keys 1 100000 no_quota)
unfolding month_key
reconcile_month_quotas-usage_example =
    reconcile_month_quotas-usage named counters keys (λ now. 86400) 1 100000 (call_of_other ∷ calls)
      no_quota ((λ _. refl), ((λ h. cc), ((λ h. cc), ((λ h. cc), tt))))
