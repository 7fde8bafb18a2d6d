-- ===== src/Ai/Rollup/Daily.antt =====
-- apps/api/app/ai/tasks.py: the aggregates after a run of the task, and after a second run.
use blank.Prelude.{
  ℕ, ◌+◌, ◌-◌, ◌*◌, ◌/◌, ◌≤◌, ◌≡◌, refl, ◌∙◌, inl, inr, Bool, true, false, ◌&&◌, Option, none, some,
  List, [], ◌∷◌, arith, ◌==◌, if◌then◌else◌, Bool-cases,
}
use blank.Prelude.Table.{select, find}
use blank.Core.Counters.{Counters}
use blank.Core.Keys.{Keys}
use blank.Ai.Quota.{Calendar, State}
use blank.Ai.Rollup.{
  UsageEvent, UsageKey, UsageDaily, DayTotals, same_key, group_by, upsert, write_groups, is_within,
  aggregate_day, purge_raw_events, run_daily_rollup, RollupState, day_seconds,
}
use blank.Ai.Rollup.Totals.{
  same_key_sound, same_key-sym, same_key-ap, totals_if_any, of_key, group_of, DistinctKeys,
  group_of-group_by, group_by-DistinctKeys,
}

abbrev pub is_daily : ℕ → UsageKey → UsageDaily → Bool
is_daily day k r = r.day == day && same_key r.key k

-- The row of a day and a key.
abbrev pub daily_of : ℕ → UsageKey → List UsageDaily → Option UsageDaily
daily_of day k = find (is_daily day k)

is_daily-ap :
    (day : ℕ) (k : UsageKey) (x r : UsageDaily)
    → (x.day == r.day && same_key x.key r.key) ≡ true
    → is_daily day k x ≡ is_daily day k r
is_daily-ap day k x r h = ground (arith, same_key-ap x.key r.key k)

is_daily-join :
    (day : ℕ) (k : UsageKey) (x r : UsageDaily)
    → is_daily day k x ≡ true
    → is_daily day k r ≡ true
    → (x.day == r.day && same_key x.key r.key) ≡ true
is_daily-join day k x r h g =
    ground (arith, same_key-ap r.key k x.key, same_key-sym x.key r.key, same_key-sym x.key k)

daily_of-upsert :
    (day : ℕ) (k : UsageKey) (r : UsageDaily) (table : List UsageDaily)
    → daily_of day k (upsert r table) ≡ (if is_daily day k r then some r else daily_of day k table)
unfolding upsert
daily_of-upsert day k r [] = refl
daily_of-upsert day k r (x ∷ table) = elim (Bool-cases (x.day == r.day && same_key x.key r.key)) [
  | inl here ↦
      let same = is_daily-ap day k x r here in
      elim (Bool-cases (is_daily day k r)) [
        | inl mine ↦ rw (here, mine) refl
        | inr other ↦ rw (here, other) (rw (same ∙ other) refl)
      ]
  | inr there ↦ rw there (ground (arith, daily_of-upsert day k r table, is_daily-join day k x r))
]

abbrev pub written : ℕ → UsageKey → Option DayTotals → Option UsageDaily → Option UsageDaily
written day k none before = before
written day k (some t) before = some (record { day = day; key = k; totals = t })

written_here :
    (target_day day : ℕ) (j k : UsageKey) (t : DayTotals) (before : Option UsageDaily)
    → j ≡ k
    → (if target_day == day
        then (if target_day == day && true
            then some (record { day = target_day; key = j; totals = t })
            else before)
        else (if target_day == day && true
            then some (record { day = target_day; key = j; totals = t })
            else before))
      ≡ (if target_day == day then some (record { day = day; key = k; totals = t }) else before)
written_here target_day day j k t before same = ground arith

not_written_here :
    (target_day day : ℕ) (k : UsageKey) (t : Option DayTotals) (r : UsageDaily)
    (before : Option UsageDaily)
    → (if target_day == day
        then written day k t (if target_day == day && false then some r else before)
        else (if target_day == day && false then some r else before))
      ≡ (if target_day == day then written day k t before else before)
not_written_here target_day day k t r before = elim (Bool-cases (target_day == day)) [
  | inl here ↦ rw here refl
  | inr other ↦ rw other refl
]

-- The events of a day.
abbrev pub events_of_day : ℕ → List UsageEvent → List UsageEvent
events_of_day day = select (is_within (day * day_seconds) (day * day_seconds + day_seconds))

daily_of-write_groups :
    (target_day day : ℕ) (k : UsageKey) (groups : List (UsageKey × DayTotals))
    (table : List UsageDaily)
    → DistinctKeys groups
    → daily_of day k (write_groups target_day groups table) ≡ (
        if target_day == day
        then written day k (group_of k groups) (daily_of day k table)
        else daily_of day k table)
unfolding write_groups
daily_of-write_groups target_day day k [] table d = ground arith
daily_of-write_groups target_day day k ((j, t) ∷ groups) table (fresh, d) =
    let r : UsageDaily = record { day = target_day; key = j; totals = t } in
    let rest = daily_of-write_groups target_day day k groups (upsert r table) d in
    let put = daily_of-upsert day k r table in
    elim (Bool-cases (same_key j k)) [
      | inl mine ↦
          let same = same_key_sound j k mine in
          let none_left : group_of k groups ≡ none = rw (← same) fresh in
          rw (rest, put, mine, none_left)
            (written_here target_day day j k t (daily_of day k table) same)
      | inr other ↦
          rw (rest, put, other) (not_written_here target_day day k _ r (daily_of day k table))
    ]

-- After the aggregation of a day, the row of each key of that day holds the sums over the events of
-- the day with that key, if there are any; every other row, of that day or of another, is as before.
pub aggregate_day-daily :
    (target_day day : ℕ) (k : UsageKey) (events : List UsageEvent) (table : List UsageDaily)
    → daily_of day k (aggregate_day target_day events table).1 ≡ (
        if target_day == day
        then written day k
            (totals_if_any (of_key k (events_of_day target_day events)))
            (daily_of day k table)
        else daily_of day k table)
unfolding aggregate_day
aggregate_day-daily target_day day k events table =
    let here = events_of_day target_day events in
    let rows =
      daily_of-write_groups target_day day k (group_by here) table (group_by-DistinctKeys here) in
    rw rows (rw (group_of-group_by k here) refl)

written_twice :
    (day : ℕ) (k : UsageKey) (t : Option DayTotals) (before : Option UsageDaily)
    → written day k t (written day k t before) ≡ written day k t before
written_twice day k none before = refl
written_twice day k (some t) before = refl

-- The events of a day that the purge does not reach.
purge-day :
    (retention_days now target_day : ℕ) (events : List UsageEvent)
    → now ≤ (target_day + retention_days) * day_seconds
    → events_of_day target_day (purge_raw_events retention_days now events).1
      ≡ events_of_day target_day events
unfolding purge_raw_events
purge-day retention_days now target_day [] h = refl
purge-day retention_days now target_day (e ∷ events) h =
    ground (arith, purge-day retention_days now target_day events h)

aggregate_again :
    (target_day day : ℕ) (k : UsageKey) (events later : List UsageEvent) (table : List UsageDaily)
    → events_of_day target_day later ≡ events_of_day target_day events
    → let after = (aggregate_day target_day events table).1 in
      daily_of day k (aggregate_day target_day later after).1 ≡ daily_of day k after
aggregate_again target_day day k events later table same =
    let after = (aggregate_day target_day events table).1 in
    let first = aggregate_day-daily target_day day k events table in
    let second = aggregate_day-daily target_day day k later after in
    elim (Bool-cases (target_day == day)) [
      | inl here ↦
          rw (second, here, first, here, same)
            (written_twice day k (totals_if_any (of_key k (events_of_day target_day events)))
              (daily_of day k table))
      | inr other ↦ rw (second, other) refl
    ]

module _ (cal : Calendar) (v : Counters) (keys : Keys) (month_start : ℕ → ℕ) where
  -- After the daily task, with a retention of at least two days, each row of the day before holds
  -- the sums over that day's events as they stood before the purge; and an aggregation of that day
  -- that is run again, on the events that the purge has left, changes no row.
  pub run_daily_rollup-replays :
      (retention_days now day : ℕ) (k : UsageKey) (s : RollupState (State cal v keys))
      → 2 ≤ retention_days
      → let yesterday = (now - day_seconds) / day_seconds in
        let s' = (run_daily_rollup cal v keys month_start retention_days now s).1 in
        (daily_of yesterday k s'.daily
          ≡ written yesterday k
              (totals_if_any (of_key k (events_of_day yesterday s.events)))
              (daily_of yesterday k s.daily))
        × (daily_of day k (aggregate_day yesterday s'.events s'.daily).1 ≡ daily_of day k s'.daily)
  unfolding run_daily_rollup
  run_daily_rollup-replays retention_days now day k s h =
      let yesterday = (now - day_seconds) / day_seconds in
      let sums = aggregate_day-daily yesterday yesterday k s.events s.daily in
      let here : (yesterday == yesterday) ≡ true = ground arith in
      let kept = purge-day retention_days now yesterday s.events (omega arith) in
      (
        rw here at sums,
        aggregate_again yesterday day k s.events (purge_raw_events retention_days now s.events).1
            s.daily kept,
      )
