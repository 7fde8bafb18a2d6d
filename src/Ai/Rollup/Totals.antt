-- ===== src/Ai/Rollup/Totals.antt =====
-- apps/api/app/ai/tasks.py: the groups of a day, against sums over its events.
use blank.Prelude.{
  ℕ, ◌+◌, ◌≡◌, refl, sym, ap, subst, ◌∙◌, inl, inr, true, false, Option, none, some, List, [], ◌∷◌,
  arith, if◌then◌else◌, Bool-cases, eq_iff,
}
use blank.Prelude.Table.{count, select}
use blank.Ai.Rollup.{
  UsageEvent, UsageKey, DayTotals, key_of, same_key, totals_of, plus, is_error, add_event, group_by,
}

pub same_key_sound : (a b : UsageKey) → same_key a b ≡ true → a ≡ b
same_key_sound a b h = ground (arith, eq_iff a.provider b.provider, eq_iff a.model b.model)

pub same_key_refl : (a : UsageKey) → same_key a a ≡ true
same_key_refl a = ground (arith, eq_iff a.provider a.provider, eq_iff a.model a.model)

abbrev pub sum : (UsageEvent → ℕ) → List UsageEvent → ℕ
sum f [] = 0
sum f (e ∷ events) = f e + sum f events

-- The events of a key.
abbrev pub of_key : UsageKey → List UsageEvent → List UsageEvent
of_key k = select (λ e. same_key k (key_of e))

-- The sums over some events, column by column.
abbrev pub totals : List UsageEvent → DayTotals
totals events = record {
  input_tokens = sum (λ e. e.row.usage.input_tokens) events;
  output_tokens = sum (λ e. e.row.usage.output_tokens) events;
  cached_tokens = sum (λ e. e.row.usage.cached_tokens) events;
  request_count = sum (λ e. 1) events;
  error_count = count (λ e. is_error e.row.status) events;
  estimated_cost_microeur = sum (λ e. e.row.estimated_cost_microeur) events;
}

-- No totals where there are no events.
abbrev pub totals_if_any : List UsageEvent → Option DayTotals
totals_if_any [] = none
totals_if_any (e ∷ events) = some (totals (e ∷ events))

abbrev pub group_of : UsageKey → List (UsageKey × DayTotals) → Option DayTotals
group_of k [] = none
group_of k ((j, t) ∷ groups) = if same_key j k then some t else group_of k groups

abbrev pub plus_if_any : DayTotals → Option DayTotals → DayTotals
plus_if_any t none = t
plus_if_any t (some u) = plus t u

group_of-add_event_same :
    (e : UsageEvent) (groups : List (UsageKey × DayTotals))
    → group_of (key_of e) (add_event e groups)
      ≡ some (plus_if_any (totals_of e) (group_of (key_of e) groups))
unfolding add_event
group_of-add_event_same e [] = rw (same_key_refl (key_of e)) refl
group_of-add_event_same e ((j, t) ∷ groups) = elim (Bool-cases (same_key j (key_of e))) [
  | inl here ↦ rw (here, here) refl
  | inr there ↦ rw (there, there) (group_of-add_event_same e groups)
]

pub same_key-sym : (a b : UsageKey) → same_key a b ≡ same_key b a
same_key-sym a b = ground (
  arith,
  eq_iff a.provider b.provider,
  eq_iff b.provider a.provider,
  eq_iff a.model b.model,
  eq_iff b.model a.model,
)

pub same_key-ap : (a b c : UsageKey) → same_key a b ≡ true → same_key a c ≡ same_key b c
same_key-ap a b c h = ap (λ k. same_key k c) (same_key_sound a b h)

group_of-add_event_other :
    (e : UsageEvent) (k : UsageKey) (groups : List (UsageKey × DayTotals))
    → same_key (key_of e) k ≡ false
    → group_of k (add_event e groups) ≡ group_of k groups
unfolding add_event
group_of-add_event_other e k [] other = rw other refl
group_of-add_event_other e k ((j, t) ∷ groups) other = elim (Bool-cases (same_key j (key_of e))) [
  | inl here ↦ let apart = same_key-ap j (key_of e) k here ∙ other in rw (here, apart) refl
  | inr there ↦ rw there (
      ap (λ (o : Option DayTotals). if same_key j k then some t else o)
        (group_of-add_event_other e k groups other))
]

plus_if_any-totals :
    (e : UsageEvent) (events : List UsageEvent)
    → plus_if_any (totals_of e) (totals_if_any events) ≡ totals (e ∷ events)
plus_if_any-totals e [] = ground arith
plus_if_any-totals e (x ∷ events) = refl

-- The group of a key is the sums over its events, and there is none without an event.
pub group_of-group_by :
    (k : UsageKey) (events : List UsageEvent)
    → group_of k (group_by events) ≡ totals_if_any (of_key k events)
unfolding group_by
group_of-group_by k [] = refl
group_of-group_by k (e ∷ events) = elim (Bool-cases (same_key k (key_of e))) [
  | inl same ↦
      let is = same_key_sound k (key_of e) same in
      let ih = group_of-group_by k events in
      rw (same) (
        rw (← plus_if_any-totals e (of_key k events), ← ih)
          (subst
            (λ (q : UsageKey).
              group_of q (add_event e (group_by events))
              ≡ some (plus_if_any (totals_of e) (group_of q (group_by events))))
            (sym is) (group_of-add_event_same e (group_by events))))
  | inr other ↦ rw other (
      group_of-add_event_other e k (group_by events) (same_key-sym (key_of e) k ∙ other)
      ∙ group_of-group_by k events)
]

-- No key has two groups.
abbrev pub DistinctKeys : List (UsageKey × DayTotals) → Type 0
DistinctKeys [] = Unit {0}
DistinctKeys ((k, t) ∷ groups) = (group_of k groups ≡ none) × DistinctKeys groups

add_event-DistinctKeys :
    (e : UsageEvent) (groups : List (UsageKey × DayTotals))
    → DistinctKeys groups
    → DistinctKeys (add_event e groups)
unfolding add_event
add_event-DistinctKeys e [] d = (refl, tt)
add_event-DistinctKeys e ((j, t) ∷ groups) (fresh, d) = elim (Bool-cases (same_key j (key_of e))) [
  | inl here ↦ rw here (fresh, d)
  | inr there ↦ rw there (
    group_of-add_event_other e j groups (same_key-sym (key_of e) j ∙ there) ∙ fresh,
    add_event-DistinctKeys e groups d,
  )
]

pub group_by-DistinctKeys : (events : List UsageEvent) → DistinctKeys (group_by events)
unfolding group_by
group_by-DistinctKeys [] = tt
group_by-DistinctKeys (e ∷ events) =
    add_event-DistinctKeys e (group_by events) (group_by-DistinctKeys events)
