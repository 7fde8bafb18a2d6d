-- ===== src/Automation/Scheduler.antt =====
-- apps/api/app/automation/scheduler.py and mounting.py: the periodic tasks of the modules. A module's
-- function is a parameter, on a state of its own: it succeeds or raises.
pub mod Runs
use Prim.Native.String
use blank.Prelude.{
  ℕ, Bool, true, false, not, ◌&&◌, Option, none, some, List, [], ◌∷◌, ◌++◌, String, ◌==◌,
  if◌then◌else◌, is_none, is_some, Result, ok, err,
}
use blank.Prelude.Table.{get, select}
use blank.Core.Keys.{Keys}
use blank.Tenancy.Models.{Tenant, TenantState}
use blank.Connectors.Throttle.{acquire_lock, release_lock}
use blank.Automation.Registry.{ModuleManifest, PeriodicTaskSpec, find_task}

-- The arguments of `enqueue_unit`.
pub record UnitJob : Type 0 where
  pub module_name : List ℕ
  pub task_name : List ℕ
  pub tenant_id : ℕ

-- An entry of the beat: every `schedule_seconds`, the fan-out of a task.
pub record BeatEntry : Type 0 where
  pub schedule_seconds : ℕ
  pub module_name : List ℕ
  pub task_name : List ℕ

task_entries : List ℕ → List PeriodicTaskSpec → List BeatEntry
task_entries module_name [] = []
task_entries module_name (t ∷ tasks) =
    record { schedule_seconds = t.schedule_seconds; module_name = module_name; task_name = t.name }
    ∷ task_entries module_name tasks

pub beat_entries : List ModuleManifest → List BeatEntry
unfolding task_entries
beat_entries [] = []
beat_entries (m ∷ modules) = task_entries m.name m.periodic_tasks ++ beat_entries modules

abbrev pub is_active_tenant : Tenant → Bool
is_active_tenant tenant =
    (elim tenant.state [ TenantState.active ↦ true | TenantState.suspended ↦ false ])
    && is_none tenant.deleted_at

module _ (modules : List ModuleManifest) (tenants : List Tenant) where
  units : (module_name task_name : List ℕ) → List ℕ → List UnitJob
  units module_name task_name [] = []
  units module_name task_name (i ∷ ids) =
      record { module_name = module_name; task_name = task_name; tenant_id = i }
      ∷ units module_name task_name ids

  -- `run_periodic_fanout`, for the tenants that `enabled_tenant_ids` gives: what is published.
  pub run_periodic_fanout : (module_name task_name : List ℕ) → (enabled : List ℕ) → List UnitJob
  unfolding units
  run_periodic_fanout module_name task_name enabled =
      if is_none (find_task modules module_name task_name)
      then []
      else units module_name task_name enabled

  pub active_tenant : ℕ → Option Tenant
  active_tenant tenant_id = elim (get (λ t. t.id) tenant_id tenants) [
    | none ↦ none
    | some tenant ↦ if is_active_tenant tenant then some tenant else none
  ]

  module _ (keys : Keys) {S : Type 0} (lock_name : (module_name task_name : List ℕ) → ℕ → String)
      (fn : PeriodicTaskSpec → ℕ → S → Bool × S) where
    -- The body of the `try`, whose error is caught, and the `finally`.
    run_locked :
        PeriodicTaskSpec → Tenant → String → String → keys.Store × S → Bool × (keys.Store × S)
    run_locked task tenant name token (k, s) =
        let (ran, s') = fn task tenant.id s in (ran, (release_lock keys name token k, s'))

    with_lock :
        PeriodicTaskSpec
        → Tenant
        → String
        → Option String
        → keys.Store × S
        → Bool × (keys.Store × S)
    unfolding run_locked
    with_lock task tenant name none (k, s) = (false, (k, s))
    with_lock task tenant name (some mine) (k, s) = run_locked task tenant name mine (k, s)

    run_for :
        PeriodicTaskSpec
        → Option Tenant
        → String
        → String
        → keys.Store × S
        → Bool × (keys.Store × S)
    unfolding with_lock
    run_for task none name token (k, s) = (false, (k, s))
    run_for task (some tenant) name token (k, s) =
        let (got, k') = acquire_lock keys name token k in with_lock task tenant name got (k', s)

    run_task :
        Option PeriodicTaskSpec → ℕ → String → String → keys.Store × S → Bool × (keys.Store × S)
    unfolding run_for
    run_task none tenant_id name token (k, s) = (false, (k, s))
    run_task (some task) tenant_id name token (k, s) =
        run_for task (active_tenant tenant_id) name token (k, s)

    -- `run_periodic_unit`, with the token that is drawn for the lock.
    pub run_periodic_unit :
        (module_name task_name : List ℕ) (tenant_id : ℕ) (token : String)
        → keys.Store × S
        → Bool × (keys.Store × S)
    unfolding run_task active_tenant
    run_periodic_unit module_name task_name tenant_id token (k, s) =
        run_task (find_task modules module_name task_name) tenant_id
          (lock_name module_name task_name tenant_id) token (k, s)
