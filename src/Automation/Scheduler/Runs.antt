-- ===== src/Automation/Scheduler/Runs.antt =====
-- apps/api/app/automation/scheduler.py: a tick of a periodic task for a tenant, and its lock.
use blank.Prelude.{ℕ, ◌≡◌, refl, Bool, false, Option, none, some, List, String, arith, eq_iff}
use blank.Core.Keys.{Keys}
use blank.Tenancy.Models.{Tenant}
use blank.Connectors.Throttle.{lock_key, acquire_lock, release_lock}
use blank.Connectors.Throttle.Locks.{acquire_lock-outcome, release_lock-outcome}
use blank.Automation.Registry.{ModuleManifest, PeriodicTaskSpec, find_task}
use blank.Automation.Scheduler.{
  active_tenant, run_periodic_unit, run_task, run_for, with_lock, run_locked,
}

module _ (modules : List ModuleManifest) (tenants : List Tenant) (keys : Keys) {S : Type 0}
    (lock_name : (module_name task_name : List ℕ) → ℕ → String)
    (fn : PeriodicTaskSpec → ℕ → S → Bool × S) where
  -- Nothing has happened.
  abbrev Skips : S → Bool × (keys.Store × S) → Type 0
  Skips s (ran, (k', s')) = (ran ≡ false) × (s' ≡ s)

  -- The task has run once, for the tenant, and the answer is whether it succeeded.
  abbrev RunsOnce : PeriodicTaskSpec → Tenant → S → Bool × (keys.Store × S) → Type 0
  RunsOnce task tenant s (ran, (k', s')) =
      (ran ≡ (fn task tenant.id s).0) × (s' ≡ (fn task tenant.id s).1)

  -- What a tick does, by the lock at its beginning.
  abbrev pub Ticks :
      Option PeriodicTaskSpec
      → Option Tenant
      → String
      → Option String
      → S
      → Bool × (keys.Store × S)
      → Type 0
  Ticks task tenant name (some holder) s out =
      Skips s out × (keys.value (lock_key name) out.1.0 ≡ some holder)
  Ticks none tenant name none s out = Skips s out × (keys.value (lock_key name) out.1.0 ≡ none)
  Ticks (some task) none name none s out = Skips s out × (keys.value (lock_key name) out.1.0 ≡ none)
  Ticks (some task) (some tenant) name none s out =
      RunsOnce task tenant s out × (keys.value (lock_key name) out.1.0 ≡ none)

  run_for-Ticks :
      (task : PeriodicTaskSpec) (tenant : Option Tenant) (name token : String) (k : keys.Store)
      (s : S) (lock : Option String)
      → keys.value (lock_key name) k ≡ lock
      → Ticks
          (some task)
          tenant
          name
          lock
          s
          (run_for modules tenants keys lock_name fn task tenant name token (k, s))
  unfolding run_for with_lock run_locked
  run_for-Ticks task none name token k s none free = ((refl, refl), free)
  run_for-Ticks task none name token k s (some holder) held = ((refl, refl), held)
  run_for-Ticks task (some tenant) name token k s none free =
      let outcome = acquire_lock-outcome keys name token k in
      let k' = (acquire_lock keys name token k).1 in
      let got : (acquire_lock keys name token k).0 ≡ some token = ground arith in
      let mine : keys.value (lock_key name) k' ≡ some token = ground arith in
      let freed = release_lock-outcome keys name token token k' mine in
      let open_ : keys.value (lock_key name) (release_lock keys name token k') ≡ none =
        ground (arith, eq_iff token token) in
      rw got ((refl, refl), open_)
  run_for-Ticks task (some tenant) name token k s (some holder) held =
      let outcome = acquire_lock-outcome keys name token k in
      let got : (acquire_lock keys name token k).0 ≡ none = ground arith in
      let kept : keys.value (lock_key name) (acquire_lock keys name token k).1 ≡ some holder =
        ground arith in
      rw got ((refl, refl), kept)

  run_task-Ticks :
      (task : Option PeriodicTaskSpec) (tenant_id : ℕ) (name token : String) (k : keys.Store)
      (s : S) (lock : Option String)
      → keys.value (lock_key name) k ≡ lock
      → Ticks task
          (active_tenant modules tenants tenant_id)
          name
          lock
          s
          (run_task modules tenants keys lock_name fn task tenant_id name token (k, s))
  unfolding run_task
  run_task-Ticks none tenant_id name token k s none free = ((refl, refl), free)
  run_task-Ticks none tenant_id name token k s (some holder) held = ((refl, refl), held)
  run_task-Ticks (some task) tenant_id name token k s lock held =
      run_for-Ticks task (active_tenant modules tenants tenant_id) name token k s lock held

  -- A tick, by the task, the tenant and the lock.
  pub run_periodic_unit-Ticks :
      (module_name task_name : List ℕ) (tenant_id : ℕ) (token : String) (k : keys.Store) (s : S)
      → let name = lock_name module_name task_name tenant_id in
        Ticks
          (find_task modules module_name task_name)
          (active_tenant modules tenants tenant_id)
          name
          (keys.value (lock_key name) k)
          s
          (run_periodic_unit modules tenants keys lock_name fn module_name task_name tenant_id token
            (k, s))
  unfolding run_periodic_unit
  run_periodic_unit-Ticks module_name task_name tenant_id token k s =
      let name = lock_name module_name task_name tenant_id in
      run_task-Ticks (find_task modules module_name task_name) tenant_id name token k s
        (keys.value (lock_key name) k) refl
