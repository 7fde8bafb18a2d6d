-- ===== src/Connectors/Beat.antt =====
-- apps/api/app/connectors/tasks.py: the periodic refresh of the tokens that expire soon, over the
-- connections of each active tenant, with the report by tenant.
pub mod Reports
use blank.Prelude.{
  ℕ, suc, ◌+◌, Bool, true, false, not, ◌&&◌, Option, none, some, List, [], ◌∷◌, String,
  if◌then◌else◌, Result, ok, err, Exec,
}
use blank.Core.Counters.{Counters}
use blank.Core.Crypto.{KeyProvider}
use blank.Core.Keys.{Keys}
use blank.Tenancy.Models.{Tenant}
use blank.Connectors.Throttle.{
  AttemptError, ThrottleError, Throttled, response_error, other_error, attempt_error,
  provider_unavailable,
}
use blank.Connectors.Tokens.{
  Connection, ConnectionStatus, is_active, TokenResponse, TokenState, Utf8, GrantError,
  invalid_grant, connector_error, http_error, unreadable_answer, RefreshError, lock_busy, bad_token,
  grant_failed, not_active, access_token_expiring, refresh_skipping,
}

pub record Report : Type 0 where
  pub refreshed : ℕ
  pub skipped : ℕ
  pub failed : ℕ

abbrev pub no_report : Report
no_report = record { refreshed = 0; skipped = 0; failed = 0 }

-- How a refresh ends for the loop: counted in the report, or as an error that the `except` clause
-- does not name.
pub data Ending : Type 0 where
  counted_refreshed counted_skipped counted_failed : Ending
  uncaught : RefreshError → Ending

unfoldable pub ending_of : Result RefreshError Bool → Ending
ending_of (ok true) = counted_refreshed
ending_of (ok false) = counted_skipped
ending_of (err (grant_failed (attempt_error (response_error status delay)))) = counted_failed
ending_of (err (grant_failed (attempt_error (other_error http_error)))) = counted_failed
ending_of (err (grant_failed provider_unavailable)) = counted_failed
ending_of (err (grant_failed (attempt_error (other_error invalid_grant)))) =
    uncaught (grant_failed (attempt_error (other_error invalid_grant)))
ending_of (err (grant_failed (attempt_error (other_error connector_error)))) =
    uncaught (grant_failed (attempt_error (other_error connector_error)))
ending_of (err (grant_failed (attempt_error (other_error unreadable_answer)))) =
    uncaught (grant_failed (attempt_error (other_error unreadable_answer)))
ending_of (err lock_busy) = uncaught lock_busy
ending_of (err (bad_token e)) = uncaught (bad_token e)
ending_of (err not_active) = uncaught not_active

-- What the connections share: the keys, the budget with the HTTP side, and the audit.
pub record Shared (C K S : Type 0) : Type 0 where
  pub keys : K
  pub network : Throttled C S
  pub audit : List ℕ

module _ (kp : KeyProvider) (utf8 : Utf8) (v : Counters) (keys : Keys) {S : Type 0}
    (post : String → Exec S (AttemptError GrantError) TokenResponse) (budget_key : ℕ → String)
    (lock_name : ℕ → String) (requests_per_minute now lead : ℕ) (token : ℕ → String) where
  abbrev pub Side : Type 0
  Side = Shared v.Store keys.Store S

  -- The refresh of one connection, without waiting for its lock.
  unfoldable pub refresh_one : Connection → Side → Result RefreshError Bool × Connection × Side
  refresh_one c s =
      let (r, t) =
        refresh_skipping kp utf8 v keys post budget_key lock_name requests_per_minute now
          (token c.id)
          (record {
            connection = c;
            database = c;
            keys = s.keys;
            network = s.network;
            audit = s.audit;
          }) in
      (r, t.connection, record { keys = t.keys; network = t.network; audit = t.audit })

  -- The connections that the query and the test on the expiry leave.
  abbrev pub is_due : Connection → Bool
  is_due c = is_active c.status && access_token_expiring now lead c

  abbrev pub counted : Ending → Report → Report
  counted counted_refreshed r = record r { refreshed = suc r.refreshed }
  counted counted_skipped r = record r { skipped = suc r.skipped }
  counted counted_failed r = record r { failed = suc r.failed }
  counted (uncaught e) r = r

  abbrev pub Rows : Type 0
  Rows = Result RefreshError Report × List Connection × Side

  -- The rest of a loop, behind a row, with what was counted for it.
  pub behind : Ending → Connection → Rows → Rows
  behind e c (err x, rows, s) = (err x, c ∷ rows, s)
  behind e c (ok report, rows, s) = (ok (counted e report), c ∷ rows, s)

  kept : Connection → Rows → Rows
  kept c (r, rows, s) = (r, c ∷ rows, s)

  -- A row is committed after its refresh, unless an error ends the loop, which leaves it as it was.
  settle : Connection → List Connection → (Side → Rows) → Ending → Connection → Side → Rows
  unfolding behind
  settle c cs rest (uncaught e) c' s = (err e, c ∷ cs, s)
  settle c cs rest counted_refreshed c' s = behind counted_refreshed c' (rest s)
  settle c cs rest counted_skipped c' s = behind counted_skipped c' (rest s)
  settle c cs rest counted_failed c' s = behind counted_failed c' (rest s)

  refreshed_row :
      Connection
      → List Connection
      → (Side → Rows)
      → Result RefreshError Bool × Connection × Side
      → Rows
  unfolding settle ending_of
  refreshed_row c cs rest (r, c', s) = settle c cs rest (ending_of r) c' s

  -- The rows of a tenant, as they are committed.
  pub refresh_rows : List Connection → Side → Rows
  unfolding refresh_one refreshed_row kept
  refresh_rows [] s = (ok no_report, [], s)
  refresh_rows (c ∷ cs) s =
      let rest = refresh_rows cs in
      if is_due c then refreshed_row c cs rest (refresh_one c s) else kept c (rest s)

  abbrev pub Tenants : Type 0
  Tenants = Result RefreshError (List (String × Report)) × List (Tenant × List Connection) × Side

  -- An error of one tenant ends the whole run: the tenants after it are not reached.
  next_tenant : Tenant → List (Tenant × List Connection) → (Side → Tenants) → Rows → Tenants
  next_tenant tenant later rest (err e, rows, s) = (err e, (tenant, rows) ∷ later, s)
  next_tenant tenant later rest (ok report, rows, s) =
      let (r, tables, s') = rest s in
      (
        elim r [ err e ↦ err e | ok reports ↦ ok ((tenant.slug, report) ∷ reports) ],
        (tenant, rows) ∷ tables,
        s',
      )

  -- `refresh_expiring_tokens`, over the active tenants with their connections.
  pub refresh_expiring_tokens : List (Tenant × List Connection) → Side → Tenants
  unfolding refresh_rows next_tenant
  refresh_expiring_tokens [] s = (ok [], [], s)
  refresh_expiring_tokens ((tenant, rows) ∷ tenants) s =
      next_tenant tenant tenants (refresh_expiring_tokens tenants) (refresh_rows rows s)
