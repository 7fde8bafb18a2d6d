-- ===== src/Ai/Rollup/Months.antt =====
-- apps/api/app/ai/tasks.py: the counters of the month after the correction.
use blank.Prelude.{
  ℕ, ◌+◌, ◌≡◌, refl, inl, inr, Option, none, some, List, [], ◌∷◌, arith, leb, ◌==◌, if◌then◌else◌,
  or_default, Bool-cases,
}
use blank.Prelude.Table.{All, All-select, select}
use blank.Core.Counters.{Counters}
use blank.Core.Keys.{Keys}
use blank.Ai.Quota.{Calendar, State, current_usage, reconcile}
use blank.Ai.Quota.Alerts.{KeysDiffer, usage-reconcile}
use blank.Ai.Rollup.{
  UsageEvent, add_tokens, tokens_by_tenant, reconcile_all, reconcile_month_quotas,
}
use blank.Ai.Rollup.Totals.{sum}

abbrev pub tokens_in : UsageEvent → ℕ
tokens_in e = e.row.usage.input_tokens + e.row.usage.output_tokens

-- The tokens of a tenant over its events, if it has any.
abbrev pub usage_if_any : List UsageEvent → Option ℕ
usage_if_any [] = none
usage_if_any (e ∷ events) = some (sum tokens_in (e ∷ events))

abbrev total_of : ℕ → List (ℕ × ℕ) → Option ℕ
total_of i [] = none
total_of i ((j, n) ∷ rows) = if j == i then some n else total_of i rows

total_of-add_tokens :
    (e : UsageEvent) (i : ℕ) (rows : List (ℕ × ℕ))
    → total_of i (add_tokens e rows) ≡ (
        if e.row.tenant_id == i
        then some (tokens_in e + or_default (total_of i rows) 0)
        else total_of i rows)
unfolding add_tokens
total_of-add_tokens e i [] = ground arith
total_of-add_tokens e i ((j, n) ∷ rows) = ground (arith, total_of-add_tokens e i rows)

usage-default :
    (events : List UsageEvent) → or_default (usage_if_any events) 0 ≡ sum tokens_in events
usage-default [] = refl
usage-default (e ∷ events) = refl

total_of-tokens_by_tenant :
    (i : ℕ) (events : List UsageEvent)
    → total_of i (tokens_by_tenant events)
      ≡ usage_if_any (select (λ e. e.row.tenant_id == i) events)
unfolding tokens_by_tenant
total_of-tokens_by_tenant i [] = refl
total_of-tokens_by_tenant i (e ∷ events) =
    let ih = total_of-tokens_by_tenant i events in
    let mine = select (λ (x : UsageEvent). x.row.tenant_id == i) events in
    elim (Bool-cases (e.row.tenant_id == i)) [
      | inl here ↦
          rw (total_of-add_tokens e i (tokens_by_tenant events), here, ih, usage-default mine) refl
      | inr other ↦ rw (total_of-add_tokens e i (tokens_by_tenant events), other) ih
    ]

abbrev DistinctTenants : List (ℕ × ℕ) → Type 0
DistinctTenants [] = Unit {0}
DistinctTenants ((j, n) ∷ rows) = (total_of j rows ≡ none) × DistinctTenants rows

add_tokens-DistinctTenants :
    (e : UsageEvent) (rows : List (ℕ × ℕ))
    → DistinctTenants rows
    → DistinctTenants (add_tokens e rows)
unfolding add_tokens
add_tokens-DistinctTenants e [] d = (refl, tt)
add_tokens-DistinctTenants e ((j, n) ∷ rows) (fresh, d) = elim (Bool-cases (j == e.row.tenant_id)) [
  | inl here ↦ rw here (fresh, d)
  | inr there ↦
      rw there ((ground (arith, total_of-add_tokens e j rows)), add_tokens-DistinctTenants e rows d)
]

tokens_by_tenant-DistinctTenants :
    (events : List UsageEvent) → DistinctTenants (tokens_by_tenant events)
unfolding tokens_by_tenant
tokens_by_tenant-DistinctTenants [] = tt
tokens_by_tenant-DistinctTenants (e ∷ events) =
    add_tokens-DistinctTenants e (tokens_by_tenant events) (tokens_by_tenant-DistinctTenants events)

add_tokens-All :
    (P : ℕ → Type 0) (e : UsageEvent) (rows : List (ℕ × ℕ))
    → P e.row.tenant_id
    → All (λ row. P row.0) rows
    → All (λ row. P row.0) (add_tokens e rows)
unfolding add_tokens
add_tokens-All P e [] p h = (p, tt)
add_tokens-All P e ((j, n) ∷ rows) p (q, h) = elim (Bool-cases (j == e.row.tenant_id)) [
  | inl here ↦ rw here (q, h)
  | inr there ↦ rw there (q, add_tokens-All P e rows p h)
]

tokens_by_tenant-All :
    (P : ℕ → Type 0) (events : List UsageEvent)
    → All (λ e. P e.row.tenant_id) events
    → All (λ row. P row.0) (tokens_by_tenant events)
unfolding tokens_by_tenant
tokens_by_tenant-All P [] h = tt
tokens_by_tenant-All P (e ∷ events) (p, h) =
    add_tokens-All P e (tokens_by_tenant events) p (tokens_by_tenant-All P events h)

module _ (cal : Calendar) (v : Counters) (keys : Keys) (month_start : ℕ → ℕ) where
  usage-reconcile_all :
      (i now : ℕ) (rows : List (ℕ × ℕ)) (s : State cal v keys)
      → All (λ row. KeysDiffer cal v keys now i row.0) rows
      → DistinctTenants rows
      → current_usage cal v keys i now (reconcile_all cal v keys month_start now rows s)
        ≡ or_default (total_of i rows) (current_usage cal v keys i now s)
  unfolding reconcile_all
  usage-reconcile_all i now [] s apart d = refl
  usage-reconcile_all i now ((j, n) ∷ rows) s (apart, others) (fresh, d) =
      let rest = usage-reconcile_all i now rows (reconcile cal v keys j now n s) others d in
      let one = usage-reconcile cal v keys i j now n s apart in ground arith

  -- After the correction, the counter of the month of a tenant with events since the start of the
  -- month is the sum of their tokens, whatever it was before; the counter of another tenant is as
  -- it was. The tenant's key
  -- differs from that of every other tenant with an event.
  pub reconcile_month_quotas-usage :
      (tenant_id now : ℕ) (events : List UsageEvent) (s : State cal v keys)
      → All (λ e. KeysDiffer cal v keys now tenant_id e.row.tenant_id) events
      → current_usage cal v keys tenant_id now
          (reconcile_month_quotas cal v keys month_start now events s)
        ≡ or_default
            (usage_if_any (
              select
                (λ e. e.row.tenant_id == tenant_id)
                (select (λ e. leb (month_start now) e.occurred_at) events)))
            (current_usage cal v keys tenant_id now s)
  unfolding reconcile_month_quotas
  reconcile_month_quotas-usage tenant_id now events s apart =
      let recent = select (λ (e : UsageEvent). leb (month_start now) e.occurred_at) events in
      let rows = tokens_by_tenant recent in
      rw (← total_of-tokens_by_tenant tenant_id recent) (
        usage-reconcile_all tenant_id now rows s
          (tokens_by_tenant-All (KeysDiffer cal v keys now tenant_id) recent (
            All-select (λ e. KeysDiffer cal v keys now tenant_id e.row.tenant_id)
              (λ e. leb (month_start now) e.occurred_at) events apart))
          (tokens_by_tenant-DistinctTenants recent))
