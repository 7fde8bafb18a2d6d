-- ===== src/Connectors/Events.antt =====
-- apps/api/app/connectors/tasks.py and webhooks.py: an event of the queue, the registry of its handlers,
-- and what they are handed. A handler runs in the context of a tenant, on the tables and a state of its
-- own, and says whether it has returned.
pub mod Local
use blank.Prelude.{
  ℕ, Bool, true, false, ◌&&◌, Option, none, some, List, [], ◌∷◌, ◌++◌, String, str_eq, ◌==◌,
  if◌then◌else◌,
}
use blank.Prelude.Table.{find, get, update}
use blank.Tenancy.Models.{Tenant}
use blank.Audit.Log.{record_audit_event, system_actor_label}
use blank.Connectors.Models.{ConnectorProvider, ConnectorConnection}
use blank.Connectors.Webhooks.{EnqueuedEvent}
use blank.Connectors.Callback.{ConnectorTables, tenant_is_served}

pub record ConnectorEvent : Type 0 where
  pub provider : ConnectorProvider
  pub capability : String
  pub connection_id : ℕ
  pub change_type : String
  pub resource_id : Option String

module _ {H : Type 0} where
  pub on_connector_event : String → H → List (String × List H) → List (String × List H)
  on_connector_event capability handler [] = (capability, handler ∷ []) ∷ []
  on_connector_event capability handler ((name, handlers) ∷ rest) =
      let later = on_connector_event capability handler rest in
      if str_eq name capability
      then (name, handlers ++ (handler ∷ [])) ∷ rest
      else (name, handlers) ∷ later

  pub event_handlers : String → List (String × List H) → List H
  event_handlers capability [] = []
  event_handlers capability ((name, handlers) ∷ rest) =
      let later = event_handlers capability rest in
      if str_eq name capability then handlers else later

-- Each tenant's tables, and what else the handlers act on.
pub record EventState (W : Type 0) : Type 0 where
  pub tables : ℕ → ConnectorTables
  pub world : W

module _ {H W : Type 0} (handle : ℕ → H → ConnectorEvent → EventState W → Bool × EventState W) where
  -- A handler that raises ends the loop.
  pub deliver : (tenant_id : ℕ) → List H → ConnectorEvent → EventState W → Bool × EventState W
  deliver tenant_id [] event s = (true, s)
  deliver tenant_id (h ∷ handlers) event s =
      let (returned, s') = handle tenant_id h event s in
      elim returned [ true ↦ deliver tenant_id handlers event s' | false ↦ (false, s') ]

  module _ (tenants : List Tenant) (registry : List (String × List H))
      (event_payload : EnqueuedEvent → String) (show_id : ℕ → String) where
    abbrev pub event_of : EnqueuedEvent → ConnectorEvent
    event_of job = record {
      provider = job.provider;
      capability = job.capability;
      connection_id = job.connection_id;
      change_type = job.change_type;
      resource_id = job.resource_id;
    }

    abbrev pub stamp_health : ℕ → ConnectorConnection → ConnectorConnection
    stamp_health now c = record c { tokens = record c.tokens { health_checked_at = some now } }

    -- The tables after an event of a connection: its health is checked, and the event is in the log.
    pub received : (audit_id now : ℕ) → EnqueuedEvent → ConnectorTables → ConnectorTables
    received audit_id now job t = record {
      connections =
          update (λ (c : ConnectorConnection). c.tokens.id) job.connection_id (stamp_health now)
            t.connections;
      audit =
          record_audit_event audit_id now "connector.event_received" "connector_connection"
            (show_id job.connection_id) (event_payload job) none system_actor_label t.audit;
    }

    for_connection :
        (audit_id now : ℕ)
        → EnqueuedEvent
        → Tenant
        → Option ConnectorConnection
        → EventState W
        → Bool × EventState W
    unfolding received
    for_connection audit_id now job tenant none s = (true, s)
    for_connection audit_id now job tenant (some c) s =
        deliver tenant.id (event_handlers job.capability registry) (event_of job) (record s {
          tables =
              λ i. if i == tenant.id then received audit_id now job (s.tables i) else s.tables i;
        })

    for_active :
        (audit_id now : ℕ) → EnqueuedEvent → Option Tenant → EventState W → Bool × EventState W
    unfolding for_connection
    for_active audit_id now job none s = (true, s)
    for_active audit_id now job (some tenant) s =
        for_connection audit_id now job tenant
          (get (λ (c : ConnectorConnection). c.tokens.id) job.connection_id
            (s.tables tenant.id).connections)
          s

    abbrev pub is_named : EnqueuedEvent → Tenant → Bool
    is_named job tenant = tenant_is_served tenant && str_eq tenant.slug job.slug

    -- `process_connector_event`; it is `false` if a handler has raised.
    pub process_connector_event :
        (audit_id now : ℕ) → EnqueuedEvent → EventState W → Bool × EventState W
    unfolding for_active
    process_connector_event audit_id now job s =
        for_active audit_id now job (find (is_named job) tenants) s
