-- ===== src/Connectors/Events/Local.antt =====
-- apps/api/app/connectors/tasks.py: the tables that an event of a webhook touches.
use blank.Prelude.{
  ℕ, ◌≡◌, refl, subst, sym, ap, ◌∙◌, ◌⊎◌, inl, inr, Bool, true, false, Option, none, some, List,
  String, str_eq, arith, ◌==◌, if◌then◌else◌, is_some, Bool-cases, Option-cases, [], ◌∷◌,
}
use blank.Prelude.Text.{str_eq_refl}
use blank.Prelude.Table.{
  find, get, All, All-among, All-weaken, Among, Among-find, find-absent, find-holds, update,
}
use blank.Core.Config.{Env}
use blank.Audit.Log.{AuditEvent, record_audit_event}
use blank.Tenancy.Models.{Tenant}
use blank.Connectors.Models.{
  ConnectorProvider, ConnectorConnection, ConnectorSubscription, WebhookRoute,
}
use blank.Connectors.Webhooks.{EnqueuedEvent, WebhookRequest, is_route, receive_webhook}
use blank.Connectors.Webhooks.Authentic.{receive_webhook-IsAuthentic}
use blank.Connectors.Callback.{ConnectorTables, tenant_is_served}
use blank.Connectors.Events.{
  ConnectorEvent, EventState, deliver, event_handlers, event_of, stamp_health, for_connection,
  for_active, is_named, process_connector_event, received,
}

-- No two tenants have one slug, as the catalogue's constraint says.
abbrev pub SlugsAreUnique : List Tenant → Type 0
SlugsAreUnique tenants =
    (a b : Tenant) → Among a tenants → Among b tenants → str_eq a.slug b.slug ≡ true → a.id ≡ b.id

module _ {H W : Type 0} (handle : ℕ → H → ConnectorEvent → EventState W → Bool × EventState W)
    (tenants : List Tenant) (registry : List (String × List H))
    (event_payload : EnqueuedEvent → String) (show_id : ℕ → String) where
  -- The guards of the session keep a handler to the tenant of its context.
  abbrev pub AreConfined : Type 0
  AreConfined =
      (tenant_id : ℕ) (h : H) (event : ConnectorEvent) (s : EventState W) (i : ℕ)
      → (i == tenant_id) ≡ false
      → (handle tenant_id h event s).1.tables i ≡ s.tables i

  -- Row by row: the connection is stamped and keeps its status and tokens, the others are the same.
  abbrev pub IsStamped :
      (connection_id now : ℕ) → List ConnectorConnection → List ConnectorConnection → Type 0
  IsStamped connection_id now [] [] = Unit {0}
  IsStamped connection_id now [] (c' ∷ cs') = ⊥
  IsStamped connection_id now (c ∷ cs) [] = ⊥
  IsStamped connection_id now (c ∷ cs) (c' ∷ cs') =
      (((c.tokens.id == connection_id) ≡ false) × (c' ≡ c)
        ⊎ ((c.tokens.id == connection_id) ≡ true)
          × (c' ≡ record c { tokens = record c.tokens { health_checked_at = some now } }))
      × IsStamped connection_id now cs cs'

  -- The log of the tenant has one event more, which tells of the job, and its connection is stamped.
  abbrev pub IsReceived : (tenant_id now : ℕ) → EnqueuedEvent → EventState W → EventState W → Type 0
  IsReceived tenant_id now job s t =
      ((e : AuditEvent) × ((t.tables tenant_id).audit ≡ e ∷ (s.tables tenant_id).audit)
        × (e.action ≡ "connector.event_received")
        × (e.resource_id ≡ show_id job.connection_id)
        × (e.payload ≡ event_payload job)
        × (e.occurred_at ≡ now))
      × IsStamped job.connection_id now (s.tables tenant_id).connections
          (t.tables tenant_id).connections
      × (t.world ≡ s.world)

  abbrev connection_of : ℕ → EnqueuedEvent → EventState W → Option ConnectorConnection
  connection_of tenant_id job s =
      get (λ (c : ConnectorConnection). c.tokens.id) job.connection_id
        (s.tables tenant_id).connections

  -- The event is received for the tenant and handed to the handlers of its capability, unless the
  -- tenant has no such connection.
  abbrev IsHandled :
      (tenant_id now : ℕ) → EnqueuedEvent → EventState W → Bool × EventState W → Type 0
  IsHandled tenant_id now job s out =
      (connection_of tenant_id job s ≡ none) × (out ≡ (true, s))
      ⊎ (is_some (connection_of tenant_id job s) ≡ true)
        × ((t : EventState W) × IsReceived tenant_id now job s t
            × (out
                ≡ deliver handle tenant_id (event_handlers job.capability registry)
                    (event_of handle tenants registry event_payload show_id job) t))

  abbrev IsLocal : ℕ → EventState W → EventState W → Type 0
  IsLocal tenant_id s s' = (i : ℕ) → (i == tenant_id) ≡ false → s'.tables i ≡ s.tables i

  -- An event is handled for one tenant, and touches the tables of no other.
  abbrev pub IsProcessedFor : (tenant_id : ℕ) → EnqueuedEvent → Type 0
  IsProcessedFor tenant_id job =
      (audit_id now : ℕ) (s : EventState W)
      → let out =
          process_connector_event handle tenants registry event_payload show_id audit_id now job
            s in
        IsHandled tenant_id now job s out × IsLocal tenant_id s out.1

  deliver-IsLocal :
      AreConfined
      → (tenant_id : ℕ) (handlers : List H) (event : ConnectorEvent) (s : EventState W)
      → IsLocal tenant_id s (deliver handle tenant_id handlers event s).1
  unfolding deliver
  deliver-IsLocal confined tenant_id [] event s i other = refl
  deliver-IsLocal confined tenant_id (h ∷ handlers) event s i other =
      let s' = (handle tenant_id h event s).1 in
      let first = confined tenant_id h event s i other in
      elim (Bool-cases (handle tenant_id h event s).0) [
        | inl returned ↦
            rw (deliver, returned)
              (deliver-IsLocal confined tenant_id handlers event s' i other ∙ first)
        | inr raised ↦ rw (deliver, raised) first
      ]

  stamp-IsStamped :
      (connection_id now : ℕ) (cs : List ConnectorConnection)
      → IsStamped connection_id now cs (
          update
            (λ (c : ConnectorConnection). c.tokens.id)
            connection_id
            (stamp_health handle tenants registry event_payload show_id now)
            cs)
  stamp-IsStamped connection_id now [] = tt
  stamp-IsStamped connection_id now (c ∷ cs) =
      let rest = stamp-IsStamped connection_id now cs in
      elim (Bool-cases (c.tokens.id == connection_id)) [
        | inl here ↦ rw here (inr (refl, refl), rest)
        | inr other ↦ rw other (inl (refl, refl), rest)
      ]

  for_connection-IsHandled :
      AreConfined
      → (audit_id now : ℕ) (job : EnqueuedEvent) (tenant : Tenant) (o : Option ConnectorConnection)
        (s : EventState W)
      → connection_of tenant.id job s ≡ o
      → let out =
          for_connection handle tenants registry event_payload show_id audit_id now job tenant o
            s in
        IsHandled tenant.id now job s out × IsLocal tenant.id s out.1
  unfolding for_connection received record_audit_event
  for_connection-IsHandled confined audit_id now job tenant none s found =
      (inl (found, refl), λ i other. refl)
  for_connection-IsHandled confined audit_id now job tenant (some c) s found =
      let here : (tenant.id == tenant.id) ≡ true = ground arith in
      let t : EventState W = record s {
        tables = λ i.
            if i == tenant.id
            then received handle tenants registry event_payload show_id audit_id now job
                (s.tables i)
            else s.tables i;
      } in
      let stamped = stamp-IsStamped job.connection_id now (s.tables tenant.id).connections in
      let same : t.tables tenant.id
          ≡ received handle tenants registry event_payload show_id audit_id now job
              (s.tables tenant.id) =
        rw here refl in
      let is_received : IsReceived tenant.id now job s t = (
        (_, ap (λ (x : ConnectorTables). x.audit) same, refl, refl, refl, refl),
        subst
            (λ (x : ConnectorTables).
              IsStamped job.connection_id now (s.tables tenant.id).connections x.connections)
            (sym same) stamped,
        refl,
      ) in
      (
        inr (ground (arith, found), (t, is_received, refl)),
        λ i other.
            deliver-IsLocal confined tenant.id (event_handlers job.capability registry)
              (event_of handle tenants registry event_payload show_id job) t i other
            ∙ rw other refl,
      )

  process-IsProcessedFor :
      AreConfined
      → (job : EnqueuedEvent) (tenant : Tenant)
      → find (is_named handle tenants registry event_payload show_id job) tenants ≡ some tenant
      → IsProcessedFor tenant.id job
  unfolding process_connector_event for_active
  process-IsProcessedFor confined job tenant found audit_id now s =
      rw found (for_connection-IsHandled confined audit_id now job tenant _ s refl)

  -- The tenant whose slug the event has is the one that is found.
  served-IsProcessedFor :
      AreConfined
      → SlugsAreUnique tenants
      → (job : EnqueuedEvent) (tenant : Tenant) → Among tenant tenants
      → tenant_is_served tenant ≡ true
      → job.slug ≡ tenant.slug
      → IsProcessedFor tenant.id job
  served-IsProcessedFor confined unique job tenant among served same =
      let p = is_named handle tenants registry event_payload show_id job in
      elim (Option-cases (find p tenants)) [
        | inl absent ↦
            let named : str_eq tenant.slug job.slug ≡ true =
              subst (λ text. str_eq tenant.slug text ≡ true) (sym same) (str_eq_refl tenant.slug) in
            let refused : p tenant ≡ false =
              All-among (λ t. p t ≡ false) tenants tenant (find-absent p tenants (rw absent refl))
                among in
            ground (arith, refused, named, served)
        | inr (other, found) ↦
            let held : p other ≡ true = find-holds p tenants found in
            let alike : str_eq other.slug tenant.slug ≡ true =
              subst (λ text. str_eq other.slug text ≡ true) same (ground (arith, held)) in
            let one : other.id ≡ tenant.id =
              unique other tenant (Among-find p tenants found) among alike in
            subst (λ id. IsProcessedFor id job) one
              (process-IsProcessedFor confined job other found)
      ]

  module _ (env : Env) (routes : List WebhookRoute) (subscriptions : ℕ → List ConnectorSubscription)
      (encodes : String → Bool) (accepts : EnqueuedEvent → Bool) where
    -- If no two tenants have one slug, every event that a request to a route puts into the queue is of
    -- the route's connection, and, when it is processed, it adds one event to the audit log of the
    -- route's tenant and stamps the connection, before the handlers of its capability are called,
    -- unless that tenant has no such connection any more; and the tables of every other tenant stay as
    -- they are, if the session's guards keep each handler to the tenant of its context.
    pub receive_webhook-IsProcessedFor :
        AreConfined
        → SlugsAreUnique tenants
        → (provider : ConnectorProvider) (route_key : String) (req : WebhookRequest)
          (route : WebhookRoute)
        → find (is_route env routes tenants subscriptions encodes accepts route_key provider) routes
          ≡ some route
        → All
            (λ job. IsProcessedFor route.tenant_id job × (job.connection_id ≡ route.connection_id))
            (receive_webhook env routes tenants subscriptions encodes accepts provider route_key
              req).1
    receive_webhook-IsProcessedFor confined unique provider route_key req route found =
        All-weaken _
          (λ job (route', tenant, _, found', known, served, same, connection, _, _, _, _, _).
            let one : route' ≡ route = cc in
            let id : tenant.id ≡ route'.tenant_id =
              ground (arith, find-holds (λ (t : Tenant). t.id == route'.tenant_id) tenants known) in
            let processed : IsProcessedFor route'.tenant_id job =
              subst (λ id. IsProcessedFor id job) id
                (served-IsProcessedFor confined unique job tenant
                  (Among-find (λ (t : Tenant). t.id == route'.tenant_id) tenants known) served
                  same) in
            subst
              (λ (r : WebhookRoute).
                IsProcessedFor r.tenant_id job × (job.connection_id ≡ r.connection_id))
              one (processed, connection))
          (receive_webhook-IsAuthentic env routes tenants subscriptions encodes accepts provider
            route_key req).0
