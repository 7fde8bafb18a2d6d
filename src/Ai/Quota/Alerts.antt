-- ===== src/Ai/Quota/Alerts.antt =====
-- apps/api/app/ai/quota.py: the count of a month, its time to live, and the alerts of a day.
use blank.Prelude.{
  ℕ, ◌+◌, ◌≡◌, ◌⊎◌, inl, inr, Bool, true, false, not, ◌&&◌, List, [], ◌∷◌, String, arith, ltb,
  str_eq, ◌==◌, if◌then◌else◌, is_none, Option-cases,
}
use blank.Prelude.Lists.{length}
use blank.Core.Counters.{Counters}
use blank.Core.Keys.{Keys}
use blank.Ai.Quota.{
  Calendar, QuotaOutcome, State, month_key, alert_key, current_usage, added, add_usage, reconcile,
  emit_alert_once, outcome_of, record_and_alert, record_day, month_ttl_seconds, alert_ttl_seconds,
}

abbrev pub alerted_count : List QuotaOutcome → ℕ
alerted_count [] = 0
alerted_count (o ∷ outcomes) = (if o.alerted then 1 else 0) + alerted_count outcomes

abbrev pub any_over : List QuotaOutcome → Bool
any_over [] = false
any_over (o ∷ outcomes) = if o.over_quota then true else any_over outcomes

module _ (cal : Calendar) (v : Counters) (keys : Keys) where
  count-added :
      (key : String) (n : ℕ) (c : v.Store)
      → v.count key (added cal v keys key n c) ≡ v.count key c + n
  unfolding added
  count-added key n c = ground (
    arith,
    v.count-incrby_self key n c,
    v.count-expire key key month_ttl_seconds (v.incrby key n c),
  )

  -- What a call answers: the usage of the month with its tokens, and whether that is above the
  -- quota; the counter stands at that usage.
  pub record_and_alert_exact :
      (tenant_id now tokens quota : ℕ) (s : State cal v keys)
      → let (outcome, s') = record_and_alert cal v keys tenant_id now tokens quota s in
        (outcome.month_usage ≡ current_usage cal v keys tenant_id now s + tokens)
        × (outcome.over_quota ≡ ltb quota outcome.month_usage)
        × (current_usage cal v keys tenant_id now s' ≡ outcome.month_usage)
  unfolding record_and_alert add_usage emit_alert_once outcome_of current_usage
  record_and_alert_exact tenant_id now tokens quota s =
      let total = count-added (month_key cal tenant_id now) tokens s.counters in ground (arith)

  -- A counter that counts something will expire.
  abbrev pub Expires : ℕ → ℕ → State cal v keys → Type 0
  Expires tenant_id now s =
      (v.count (month_key cal tenant_id now) s.counters ≡ 0)
      ⊎ (v.has_ttl (month_key cal tenant_id now) s.counters ≡ true)

  -- The counter of a month has a time to live, after a call and after the daily correction.
  pub add_usage-Expires :
      (tenant_id now tokens month_total : ℕ) (s : State cal v keys)
      → Expires tenant_id now s
      → Expires tenant_id now (add_usage cal v keys tenant_id now tokens s).1
        × Expires tenant_id now (reconcile cal v keys tenant_id now month_total s)
  unfolding add_usage added reconcile
  add_usage-Expires tenant_id now tokens month_total s h =
      let key = month_key cal tenant_id now in
      let c₁ = v.incrby key tokens s.counters in
      ground (
        arith,
        v.count-incrby_self key tokens s.counters,
        v.has_ttl-incrby key key tokens s.counters,
        v.has_ttl-expire_self key month_ttl_seconds c₁,
        v.has_ttl-set_ex_self key month_total month_ttl_seconds s.counters,
      )

  -- The keys of two tenants differ.
  abbrev pub KeysDiffer : (now i j : ℕ) → Type 0
  KeysDiffer now i j = (i == j) ≡ false → str_eq (month_key cal i now) (month_key cal j now) ≡ false

  pub usage-reconcile :
      (i j now n : ℕ) (s : State cal v keys)
      → KeysDiffer now i j
      → current_usage cal v keys i now (reconcile cal v keys j now n s)
        ≡ (if j == i then n else current_usage cal v keys i now s)
  unfolding current_usage reconcile
  usage-reconcile i j now n s apart = ground (
    arith,
    v.count-set_ex_self (month_key cal i now) n month_ttl_seconds s.counters,
    v.count-set_ex_other (month_key cal i now) (month_key cal j now) n month_ttl_seconds s.counters,
    apart,
  )

  abbrev pub is_marked : ℕ → ℕ → State cal v keys → Bool
  is_marked tenant_id now s = not (is_none (keys.value (alert_key cal tenant_id now) s.keys))

  record_and_alert-marks :
      (tenant_id now tokens quota : ℕ) (s : State cal v keys)
      → let (outcome, s') = record_and_alert cal v keys tenant_id now tokens quota s in
        (outcome.alerted ≡ (not (is_marked tenant_id now s) && outcome.over_quota))
        × (is_marked tenant_id now s'
            ≡ (if outcome.alerted then true else is_marked tenant_id now s))
        × (length s'.audit ≡ (if outcome.alerted then 1 else 0) + length s.audit)
  unfolding record_and_alert add_usage emit_alert_once outcome_of
  record_and_alert-marks tenant_id now tokens quota s =
      let key = alert_key cal tenant_id now in
      let answer = keys.set_nx-answer key "1" alert_ttl_seconds s.keys in
      let after = keys.value-set_nx_self key "1" alert_ttl_seconds s.keys in
      elim (Option-cases (keys.value key s.keys)) [
        | inl absent ↦ ground arith
        | inr (x, present) ↦ ground arith
      ]

  -- Over the calls of a day, a tenant is alerted once if some call ends above its quota and no
  -- alert was sent before, and never otherwise; each alert is a row of the audit log.
  pub record_day_alerts :
      (tenant_id now : ℕ) (calls : List (ℕ × ℕ)) (s : State cal v keys)
      → let (outcomes, s') = record_day cal v keys tenant_id now calls s in
        (alerted_count outcomes
          ≡ (if is_marked tenant_id now s then 0 else if any_over outcomes then 1 else 0))
        × (length s'.audit ≡ alerted_count outcomes + length s.audit)
  unfolding record_day
  record_day_alerts tenant_id now [] s = (ground arith, omega arith)
  record_day_alerts tenant_id now ((tokens, quota) ∷ calls) s =
      let first = record_and_alert-marks tenant_id now tokens quota s in
      let s₁ = (record_and_alert cal v keys tenant_id now tokens quota s).1 in
      let rest = record_day_alerts tenant_id now calls s₁ in ground arith
