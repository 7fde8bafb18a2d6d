-- ===== src/Ai/Rollup.antt =====
-- apps/api/app/ai/tasks.py: the daily task of the gateway: the aggregates of a day, the correction of
-- the counters of the month, and the purge of the raw events. Instants are seconds, a day the number
-- of its midnight.
pub mod Totals
pub mod Daily
pub mod Months
use blank.Prelude.{
  ℕ, ◌+◌, ◌-◌, ◌*◌, ◌/◌, ◌≤◌, ◌≡◌, Bool, true, false, not, ◌&&◌, Option, none, some, List, [], ◌∷◌,
  String, str_eq, ltb, leb, ◌==◌, if◌then◌else◌,
}
use blank.Prelude.Lists.{length}
use blank.Prelude.Table.{find, select}
use blank.Core.Counters.{Counters}
use blank.Core.Keys.{Keys}
use blank.Ai.Quota.{Calendar, State, reconcile}
use blank.Ai.Gateway.{UsageRecord, UsageStatus, status_ok, status_error, status_timeout}

-- A row of `ai_usage_events`: the metering's record and its instant.
pub record UsageEvent : Type 0 where
  pub occurred_at : ℕ
  pub row : UsageRecord

-- What the rows of a day are grouped by.
pub record UsageKey : Type 0 where
  pub tenant_id : ℕ
  pub provider : String
  pub model : String

pub record DayTotals : Type 0 where
  pub input_tokens : ℕ
  pub output_tokens : ℕ
  pub cached_tokens : ℕ
  pub request_count : ℕ
  pub error_count : ℕ
  pub estimated_cost_microeur : ℕ

-- `AIUsageDaily`, with the columns of its primary key first.
pub record UsageDaily : Type 0 where
  pub day : ℕ
  pub key : UsageKey
  pub totals : DayTotals

abbrev pub day_seconds : ℕ
day_seconds = 86400

abbrev pub key_of : UsageEvent → UsageKey
key_of e = record { tenant_id = e.row.tenant_id; provider = e.row.provider; model = e.row.model }

abbrev pub same_key : UsageKey → UsageKey → Bool
same_key a b = a.tenant_id == b.tenant_id && str_eq a.provider b.provider && str_eq a.model b.model

abbrev pub is_error : UsageStatus → Bool
is_error status_ok = false
is_error status_error = true
is_error status_timeout = true

abbrev pub totals_of : UsageEvent → DayTotals
totals_of e = record {
  input_tokens = e.row.usage.input_tokens;
  output_tokens = e.row.usage.output_tokens;
  cached_tokens = e.row.usage.cached_tokens;
  request_count = 1;
  error_count = if is_error e.row.status then 1 else 0;
  estimated_cost_microeur = e.row.estimated_cost_microeur;
}

abbrev pub plus : DayTotals → DayTotals → DayTotals
plus a b = record {
  input_tokens = a.input_tokens + b.input_tokens;
  output_tokens = a.output_tokens + b.output_tokens;
  cached_tokens = a.cached_tokens + b.cached_tokens;
  request_count = a.request_count + b.request_count;
  error_count = a.error_count + b.error_count;
  estimated_cost_microeur = a.estimated_cost_microeur + b.estimated_cost_microeur;
}

-- `GROUP BY tenant_id, provider, model` with the sums: an event joins the group of its key.
pub add_event : UsageEvent → List (UsageKey × DayTotals) → List (UsageKey × DayTotals)
add_event e [] = (key_of e, totals_of e) ∷ []
add_event e ((k, t) ∷ groups) =
    let rest = add_event e groups in
    if same_key k (key_of e) then (k, plus (totals_of e) t) ∷ groups else (k, t) ∷ rest

pub group_by : List UsageEvent → List (UsageKey × DayTotals)
unfolding add_event
group_by [] = []
group_by (e ∷ events) = add_event e (group_by events)

-- `INSERT … ON CONFLICT (day, tenant_id, provider, model) DO UPDATE`
pub upsert : UsageDaily → List UsageDaily → List UsageDaily
upsert r [] = r ∷ []
upsert r (x ∷ xs) =
    let rest = upsert r xs in if x.day == r.day && same_key x.key r.key then r ∷ xs else x ∷ rest

pub write_groups : ℕ → List (UsageKey × DayTotals) → List UsageDaily → List UsageDaily
unfolding upsert
write_groups day [] table = table
write_groups day ((k, t) ∷ groups) table =
    write_groups day groups (upsert (record { day = day; key = k; totals = t }) table)

abbrev pub is_within : ℕ → ℕ → UsageEvent → Bool
is_within start end e = leb start e.occurred_at && ltb e.occurred_at end

-- The number of rows written, and the table after it.
pub aggregate_day : ℕ → List UsageEvent → List UsageDaily → ℕ × List UsageDaily
unfolding group_by write_groups
aggregate_day target_day events table =
    let start = target_day * day_seconds in
    let grouped = group_by (select (is_within start (start + day_seconds)) events) in
    (length grouped, write_groups target_day grouped table)

-- `GROUP BY tenant_id` with the sum of the tokens, both ways.
pub add_tokens : UsageEvent → List (ℕ × ℕ) → List (ℕ × ℕ)
add_tokens e [] = (e.row.tenant_id, e.row.usage.input_tokens + e.row.usage.output_tokens) ∷ []
add_tokens e ((tenant_id, total) ∷ rows) =
    let rest = add_tokens e rows in
    if tenant_id == e.row.tenant_id
    then (tenant_id, (e.row.usage.input_tokens + e.row.usage.output_tokens) + total) ∷ rows
    else (tenant_id, total) ∷ rest

pub tokens_by_tenant : List UsageEvent → List (ℕ × ℕ)
unfolding add_tokens
tokens_by_tenant [] = []
tokens_by_tenant (e ∷ events) = add_tokens e (tokens_by_tenant events)

-- `DELETE … WHERE occurred_at < cutoff`: the number of rows deleted, and the rows kept.
pub purge_raw_events : (retention_days now : ℕ) → List UsageEvent → ℕ × List UsageEvent
purge_raw_events retention_days now events =
    let cutoff = now - retention_days * day_seconds in
    (
      length (select (λ e. ltb e.occurred_at cutoff) events),
      select (λ e. not (ltb e.occurred_at cutoff)) events,
    )

-- The raw events, the aggregates, and the server of the quotas.
pub record RollupState (Q : Type 0) : Type 0 where
  pub events : List UsageEvent
  pub daily : List UsageDaily
  pub quota : Q

pub record RollupResult : Type 0 where
  pub aggregated : ℕ
  pub purged : ℕ

-- The first instant of the month of an instant is the calendar's.
module _ (cal : Calendar) (v : Counters) (keys : Keys) (month_start : ℕ → ℕ) where
  pub reconcile_all : ℕ → List (ℕ × ℕ) → State cal v keys → State cal v keys
  reconcile_all now [] s = s
  reconcile_all now ((tenant_id, total) ∷ rows) s =
      reconcile_all now rows (reconcile cal v keys tenant_id now total s)

  pub reconcile_month_quotas : ℕ → List UsageEvent → State cal v keys → State cal v keys
  unfolding tokens_by_tenant reconcile_all
  reconcile_month_quotas now events s =
      reconcile_all now
        (tokens_by_tenant (select (λ e. leb (month_start now) e.occurred_at) events)) s

  -- `_run_daily_rollup`, which reads the clock once here.
  pub run_daily_rollup :
      (retention_days now : ℕ)
      → RollupState (State cal v keys)
      → RollupResult × RollupState (State cal v keys)
  unfolding aggregate_day reconcile_month_quotas purge_raw_events
  run_daily_rollup retention_days now s =
      let yesterday = (now - day_seconds) / day_seconds in
      let (aggregated, daily) = aggregate_day yesterday s.events s.daily in
      let quota = reconcile_month_quotas now s.events s.quota in
      let (purged, events) = purge_raw_events retention_days now s.events in
      (
        record { aggregated = aggregated; purged = purged },
        record { events = events; daily = daily; quota = quota },
      )
