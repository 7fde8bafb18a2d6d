-- ===== src/Tests/Modules.antt =====
-- The theorems on modules at a registry of one module with a daily task.
use blank.Prelude.{ℕ, ◌+◌, refl, Bool, true, List, [], ◌∷◌, String}
use blank.Prelude.Table.{All}
use blank.Automation.Registry.{
  ModuleManifest, PeriodicTaskSpec, is_module_name, starts_with, same_name, validate_manifest,
  validate_from, validate_registry,
}
use blank.Automation.Registry.Namespaces.{StaysInside, AreDisjoint, validate_registry-AreDisjoint}

-- `digest` with the task `digest.daily`.
abbrev digest : List ℕ
digest = 100 ∷ 105 ∷ 103 ∷ 101 ∷ 115 ∷ 116 ∷ []

abbrev daily : List ℕ
daily = 100 ∷ 105 ∷ 103 ∷ 101 ∷ 115 ∷ 116 ∷ 46 ∷ 100 ∷ []

abbrev module_of_digest : ModuleManifest
module_of_digest = record {
  name = digest;
  permissions = record { name = daily; roles = "owner" ∷ [] } ∷ [];
  periodic_tasks = record { name = daily; schedule_seconds = 86400 } ∷ [];
  audit_actions = daily ∷ [];
  routes = record { path = "/digests"; required = daily ∷ [] } ∷ [];
  connector_events = ("mail", 1) ∷ [];
  required_capabilities = "mail" ∷ [];
}

abbrev modules : List ModuleManifest
modules = module_of_digest ∷ []

validate_registry-AreDisjoint_example : All StaysInside modules × AreDisjoint modules
unfolding is_module_name starts_with same_name validate_manifest validate_from validate_registry
validate_registry-AreDisjoint_example = validate_registry-AreDisjoint modules refl

-- A task that counts how often it runs.
abbrev counting : PeriodicTaskSpec → ℕ → ℕ → Bool × ℕ
counting task tenant_id runs = (true, runs + 1)

abbrev lock_of : (module_name task_name : List ℕ) → ℕ → String
lock_of module_name task_name tenant_id = "module:digest"
