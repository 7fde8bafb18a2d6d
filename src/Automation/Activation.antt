-- ===== src/Automation/Activation.antt =====
-- apps/api/app/automation/service.py: a module is enabled for a tenant whose active connections
-- grant what it requires; the state is read through a cache of this process.
pub mod Cache
pub mod Followed
use blank.Prelude.{
  ℕ, ◌+◌, Bool, true, false, not, ◌&&◌, Option, none, some, List, [], ◌∷◌, String, str_eq, ltb,
  ◌==◌, if◌then◌else◌, Result, ok, err, Exec,
}
use blank.Prelude.Text.{contains}
use blank.Connectors.Tokens.{ConnectionStatus, is_active}
use blank.Prelude.Table.{find, select, update_where}

-- `TenantModule`, unique by tenant and module.
pub record TenantModule : Type 0 where
  pub tenant_id : ℕ
  pub module_name : String
  pub enabled : Bool

-- A connection of the tenant, with the names of `granted_capabilities(connection)`.
pub record TenantConnection : Type 0 where
  pub status : ConnectionStatus
  pub granted : List String

-- An entry of `_state_cache`.
pub record CacheEntry : Type 0 where
  pub tenant_id : ℕ
  pub module_name : String
  pub enabled : Bool
  pub expires : ℕ

-- What the audit log is told.
pub data ModuleEvent : Type 0 where
  module_enabled module_disabled : ℕ → String → ModuleEvent

pub data ModuleError : Type 0 where
  unknown_module : ModuleError
  capabilities_missing : List String → ModuleError

pub record ModuleState : Type 0 where
  pub rows : List TenantModule
  pub cache : List CacheEntry
  pub audit : List ModuleEvent

abbrev pub state_ttl : ℕ
state_ttl = 10000000

-- Is the capability among those of an active connection?
pub is_granted : List TenantConnection → String → Bool
is_granted [] capability = false
is_granted (c ∷ connections) capability =
    if is_active c.status && contains c.granted capability
    then true
    else is_granted connections capability

-- `missing_capabilities`, but for the order of the names.
pub missing_capabilities : List String → List TenantConnection → List String
unfolding is_granted
missing_capabilities required connections = select (λ c. not (is_granted connections c)) required

abbrev pub is_row : ℕ → String → TenantModule → Bool
is_row tenant_id name row = (row.tenant_id == tenant_id) && str_eq row.module_name name

abbrev pub is_entry : ℕ → String → CacheEntry → Bool
is_entry tenant_id name entry = (entry.tenant_id == tenant_id) && str_eq entry.module_name name

-- `_invalidate`
pub invalidate : ℕ → String → List CacheEntry → List CacheEntry
invalidate tenant_id name cache = select (λ e. not (is_entry tenant_id name e)) cache

pub enable_row : Option TenantModule → ℕ → String → List TenantModule → List TenantModule
enable_row none tenant_id name rows =
    record { tenant_id = tenant_id; module_name = name; enabled = true } ∷ rows
enable_row (some row) tenant_id name rows =
    update_where (is_row tenant_id name) (λ r. record r { enabled = true }) rows

pub row_enabled : Option TenantModule → Bool
row_enabled none = false
row_enabled (some row) = row.enabled

-- `enable_module` after its checks, by what is missing.
pub activate : ℕ → String → List String → Exec ModuleState ModuleError (Unit {0})
unfolding enable_row invalidate
activate tenant_id name (m ∷ missing) s = (err (capabilities_missing (m ∷ missing)), s)
activate tenant_id name [] s = (
  ok tt,
  record {
    rows = enable_row (find (is_row tenant_id name) s.rows) tenant_id name s.rows;
    cache = invalidate tenant_id name s.cache;
    audit = module_enabled tenant_id name ∷ s.audit;
  },
)

-- A module that is not enabled stays so, without a trace and with its entry in the cache.
pub deactivate : ℕ → String → Bool → ModuleState → ModuleState
unfolding invalidate
deactivate tenant_id name false s = s
deactivate tenant_id name true s = record {
  rows = update_where (is_row tenant_id name) (λ r. record r { enabled = false }) s.rows;
  cache = invalidate tenant_id name s.cache;
  audit = module_disabled tenant_id name ∷ s.audit;
}

-- The module's required capabilities are its manifest's, `none` for an unknown module;
-- `connections` are those of the tenant's database.
pub enable_module :
    Option (List String)
    → ℕ
    → String
    → List TenantConnection
    → Exec ModuleState ModuleError (Unit {0})
unfolding missing_capabilities activate
enable_module none tenant_id name connections s = (err unknown_module, s)
enable_module (some required) tenant_id name connections s =
    activate tenant_id name (missing_capabilities required connections) s

pub disable_module : Option (List String) → ℕ → String → Exec ModuleState ModuleError (Unit {0})
unfolding row_enabled deactivate
disable_module none tenant_id name s = (err unknown_module, s)
disable_module (some required) tenant_id name s =
    (ok tt, deactivate tenant_id name (row_enabled (find (is_row tenant_id name) s.rows)) s)

-- The entry of the cache, if it lives.
pub live_entry : ℕ → Option CacheEntry → Option Bool
live_entry now none = none
live_entry now (some entry) = if ltb now entry.expires then some entry.enabled else none

pub is_module_enabled : ℕ → String → ℕ → ModuleState → Bool × ModuleState
unfolding live_entry row_enabled invalidate
is_module_enabled tenant_id name now s =
    elim (live_entry now (find (is_entry tenant_id name) s.cache)) [
      | some enabled ↦ (enabled, s)
      | none ↦
          let enabled = row_enabled (find (is_row tenant_id name) s.rows) in
          (
            enabled,
            record s {
              cache =
                  record {
                    tenant_id = tenant_id;
                    module_name = name;
                    enabled = enabled;
                    expires = now + state_ttl;
                  }
                  ∷ invalidate tenant_id name s.cache;
            },
          )
    ]

-- `require_module_enabled`: 403 for a module that is not enabled.
pub require_module_enabled : ℕ → String → ℕ → Exec ModuleState ℕ ℕ
unfolding is_module_enabled
require_module_enabled tenant_id name now s =
    let (enabled, s') = is_module_enabled tenant_id name now s in
    (if enabled then ok tenant_id else err 403, s')

-- `enabled_tenant_ids`
pub enabled_tenant_ids : String → List TenantModule → List ℕ
enabled_tenant_ids name [] = []
enabled_tenant_ids name (row ∷ rows) =
    if str_eq row.module_name name && row.enabled
    then row.tenant_id ∷ enabled_tenant_ids name rows
    else enabled_tenant_ids name rows
