-- ===== src/Automation/Registry.antt =====
-- apps/api/app/automation/contract.py and registry.py: the manifests of the modules, and their checks at
-- start-up. Names are texts by their code points; the routes of a router are those of FastAPI, with
-- the permissions that their dependencies require.
pub mod Namespaces
use blank.Prelude.{
  ℕ, suc, ◌+◌, Bool, true, false, not, ◌&&◌, ◌||◌, Option, none, some, List, [], ◌∷◌, ◌++◌, String,
  ltb, leb, ◌==◌, if◌then◌else◌, Result, ok, err,
}
use blank.Prelude.Lists.{length}
use blank.Prelude.Table.{find, any, all}

pub record ModulePermission : Type 0 where
  pub name : List ℕ
  pub roles : List String

-- The function of a task is left to the scheduler.
pub record PeriodicTaskSpec : Type 0 where
  pub name : List ℕ
  pub schedule_seconds : ℕ

pub record ModuleRoute : Type 0 where
  pub path : String
  pub required : List (List ℕ)

pub record ModuleManifest : Type 0 where
  pub name : List ℕ
  pub permissions : List ModulePermission
  pub periodic_tasks : List PeriodicTaskSpec
  pub audit_actions : List (List ℕ)
  pub routes : List ModuleRoute
  pub connector_events : List (String × ℕ)
  pub required_capabilities : List String

-- `ModuleRegistryError`, by message.
pub data ModuleRegistryError : Type 0 where
  invalid_name foreign_permission foreign_task foreign_action unprotected_route name_collision :
      ModuleRegistryError

abbrev pub is_lower : ℕ → Bool
is_lower c = leb b'a' c && leb c b'z'

abbrev pub is_name_char : ℕ → Bool
is_name_char c = is_lower c || (leb b'0' c && leb c b'9') || c == b'_'

-- `^[a-z][a-z0-9_]{1,30}$`, matched in full.
unfoldable pub is_module_name : List ℕ → Bool
is_module_name [] = false
is_module_name (c ∷ cs) =
    is_lower c && all is_name_char cs && leb 1 (length cs) && leb (length cs) 30

-- `text.startswith(prefix)`
unfoldable pub starts_with : List ℕ → List ℕ → Bool
starts_with text [] = true
starts_with [] (p ∷ ps) = false
starts_with (c ∷ cs) (p ∷ ps) = if c == p then starts_with cs ps else false

unfoldable pub same_name : List ℕ → List ℕ → Bool
same_name [] [] = true
same_name (a ∷ xs) (b ∷ ys) = if a == b then same_name xs ys else false
same_name [] (b ∷ ys) = false
same_name (a ∷ xs) [] = false

-- `f"{name}."`
abbrev pub prefix_of : ModuleManifest → List ℕ
prefix_of m = m.name ++ b'.' ∷ []

unfoldable pub validate_manifest : ModuleManifest → Result ModuleRegistryError (Unit {0})
unfolding is_module_name starts_with
validate_manifest m =
    if not (is_module_name m.name)
    then err invalid_name
    else (if not (all (λ p. starts_with p.name (prefix_of m)) m.permissions)
        then err foreign_permission
        else (if not (all (λ t. starts_with t.name (prefix_of m)) m.periodic_tasks)
            then err foreign_task
            else (if not (all (λ a. starts_with a (prefix_of m)) m.audit_actions)
                then err foreign_action
                else (if not (all (λ r. any (λ p. starts_with p (prefix_of m)) r.required) m.routes)
                    then err unprotected_route
                    else ok tt))))

unfoldable pub validate_from :
    List (List ℕ) → List ModuleManifest → Result ModuleRegistryError (Unit {0})
unfolding same_name validate_manifest
validate_from seen [] = ok tt
validate_from seen (m ∷ modules) =
    let rest = validate_from (m.name ∷ seen) modules in
    if any (λ n. same_name n m.name) seen
    then err name_collision
    else elim (validate_manifest m) [ err e ↦ err e | ok u ↦ rest ]

unfoldable pub validate_registry : List ModuleManifest → Result ModuleRegistryError (Unit {0})
unfolding validate_from
validate_registry modules = validate_from [] modules

pub get_module : List ModuleManifest → List ℕ → Option ModuleManifest
unfolding same_name
get_module modules name = find (λ m. same_name m.name name) modules

pub find_task : List ModuleManifest → (module_name task_name : List ℕ) → Option PeriodicTaskSpec
unfolding get_module same_name
find_task modules module_name task_name = elim (get_module modules module_name) [
  | none ↦ none
  | some m ↦ find (λ t. same_name t.name task_name) m.periodic_tasks
]
