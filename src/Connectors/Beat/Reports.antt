-- ===== src/Connectors/Beat/Reports.antt =====
-- apps/api/app/connectors/tasks.py: what the report of a refresh counts, and which rows it touches.
use blank.Prelude.{
  ℕ, suc, ◌+◌, ◌≡◌, refl, inl, inr, Bool, true, false, List, [], ◌∷◌, String, arith, Bool-cases, ok,
  err, Exec,
}
use blank.Prelude.Table.{count}
use blank.Core.Counters.{Counters}
use blank.Core.Crypto.{KeyProvider}
use blank.Core.Keys.{Keys}
use blank.Connectors.Throttle.{AttemptError}
use blank.Connectors.Tokens.{Connection, TokenResponse, Utf8, GrantError}
use blank.Connectors.Tokens.Outcome.{refresh_skipping-Outcome}
use blank.Connectors.Beat.{
  Report, Ending, counted_refreshed, counted_skipped, counted_failed, uncaught, ending_of, Side,
  Rows, refresh_one, is_due, counted, behind, kept, settle, refreshed_row, refresh_rows,
}

abbrev pub total : Report → ℕ
total r = r.refreshed + r.skipped + r.failed

module _ (kp : KeyProvider) (utf8 : Utf8) (v : Counters) (keys : Keys) {S : Type 0}
    (post : String → Exec S (AttemptError GrantError) TokenResponse) (budget_key : ℕ → String)
    (lock_name : ℕ → String) (requests_per_minute now lead : ℕ) (token : ℕ → String) where
  abbrev Out : Type 0
  Out = Rows kp utf8 v keys post budget_key lock_name requests_per_minute now lead token

  abbrev due : Connection → Bool
  due = is_due kp utf8 v keys post budget_key lock_name requests_per_minute now lead token

  -- Of two tables, the rows have the same identifiers, place by place, and those that are not due are
  -- the same.
  abbrev pub SameRest : List Connection → List Connection → Type 0
  SameRest [] [] = Unit {0}
  SameRest [] (c' ∷ cs') = ⊥
  SameRest (c ∷ cs) [] = ⊥
  SameRest (c ∷ cs) (c' ∷ cs') = (c'.id ≡ c.id) × (due c ≡ false → c' ≡ c) × SameRest cs cs'

  -- A report counts each row that is due, once; an error names no report.
  abbrev pub Accounts : List Connection → Out → Type 0
  Accounts cs (ok report, rows, s) = (total report ≡ count due cs) × SameRest cs rows
  Accounts cs (err e, rows, s) = SameRest cs rows

  SameRest-refl : (cs : List Connection) → SameRest cs cs
  SameRest-refl [] = tt
  SameRest-refl (c ∷ cs) = (refl, (λ _. refl), SameRest-refl cs)

  counted-total :
      (e : Ending) (c c' : Connection) (cs : List Connection) (out : Out)
      → due c ≡ true
      → c'.id ≡ c.id
      → ((r : Report)
          → total (
              counted kp utf8 v keys post budget_key lock_name requests_per_minute now lead token e
                r)
            ≡ suc (total r))
      → Accounts cs out
      → Accounts (c ∷ cs) (
          behind kp utf8 v keys post budget_key lock_name requests_per_minute now lead token e c'
            out)
  unfolding behind
  counted-total e c c' cs (err x, rows, s) d same one h = (same, (λ n. cc), h)
  counted-total e c c' cs (ok report, rows, s) d same one (t, h) =
      (ground (arith, one report), (same, (λ n. cc), h))

  settle-Accounts :
      (c c' : Connection) (cs : List Connection)
      (rest : Side kp utf8 v keys post budget_key lock_name requests_per_minute now lead token
        → Out)
      (e : Ending)
      (s : Side kp utf8 v keys post budget_key lock_name requests_per_minute now lead token)
      → due c ≡ true
      → c'.id ≡ c.id
      → ((t : Side kp utf8 v keys post budget_key lock_name requests_per_minute now lead token)
          → Accounts cs (rest t))
      → Accounts (c ∷ cs) (
          settle kp utf8 v keys post budget_key lock_name requests_per_minute now lead token c cs
            rest e c' s)
  unfolding settle
  settle-Accounts c c' cs rest (uncaught x) s d same h = (refl, (λ _. refl), SameRest-refl cs)
  settle-Accounts c c' cs rest counted_refreshed s d same h =
      counted-total counted_refreshed c c' cs (rest s) d same (λ r. omega arith) (h s)
  settle-Accounts c c' cs rest counted_skipped s d same h =
      counted-total counted_skipped c c' cs (rest s) d same (λ r. omega arith) (h s)
  settle-Accounts c c' cs rest counted_failed s d same h =
      counted-total counted_failed c c' cs (rest s) d same (λ r. omega arith) (h s)

  kept-Accounts :
      (c : Connection) (cs : List Connection) (out : Out)
      → due c ≡ false
      → Accounts cs out
      → Accounts
          (c ∷ cs)
          (kept kp utf8 v keys post budget_key lock_name requests_per_minute now lead token c out)
  unfolding kept
  kept-Accounts c cs (err x, rows, s) d h = (refl, (λ _. refl), h)
  kept-Accounts c cs (ok report, rows, s) d (t, h) = (ground arith, (refl, (λ _. refl), h))

  refresh_one-id :
      (c : Connection)
      (s : Side kp utf8 v keys post budget_key lock_name requests_per_minute now lead token)
      → (refresh_one kp utf8 v keys post budget_key lock_name requests_per_minute now lead token c
          s).1.id
        ≡ c.id
  unfolding refresh_one
  refresh_one-id c s =
      (refresh_skipping-Outcome kp utf8 v keys post budget_key lock_name requests_per_minute now
        (token c.id) _).0

  -- The refresh of a tenant's connections, if it comes to its end, reports each connection that is
  -- active and expires within the lead time exactly once: as refreshed, skipped or failed. Whatever
  -- happens, it neither adds nor removes nor moves a row, and leaves every other connection as it is.
  pub refresh_rows-Accounts :
      (cs : List Connection)
      (s : Side kp utf8 v keys post budget_key lock_name requests_per_minute now lead token)
      → Accounts cs (
          refresh_rows kp utf8 v keys post budget_key lock_name requests_per_minute now lead token
            cs s)
  unfolding refresh_rows refreshed_row
  refresh_rows-Accounts [] s = (refl, tt)
  refresh_rows-Accounts (c ∷ cs) s = elim (Bool-cases (due c)) [
    | inl yes_due ↦
        let (r, c', s') =
          refresh_one kp utf8 v keys post budget_key lock_name requests_per_minute now lead token c
            s in
        let settled =
          settle-Accounts c c' cs
            (refresh_rows kp utf8 v keys post budget_key lock_name requests_per_minute now lead
              token cs)
            (ending_of r) s' yes_due (refresh_one-id c s) (refresh_rows-Accounts cs) in
        rw yes_due settled
    | inr not_due ↦ rw not_due (kept-Accounts c cs _ not_due (refresh_rows-Accounts cs s))
  ]
