-- ===== src/Connectors/Callback/Outcome.antt =====
-- apps/api/app/connectors/oauth.py: what the callback leaves behind, for each of its answers.
use blank.Prelude.{
  ℕ, ◌≡◌, refl, ◌⊎◌, inl, inr, Bool, true, false, Option, none, some, List, ◌∷◌, String, str_eq,
  arith, ◌==◌, is_some, or_default, Bool-cases, Result, ok, err,
}
use blank.Prelude.Table.{find}
use blank.Core.Crypto.{KeyProvider}
use blank.Tenancy.Models.{Tenant}
use blank.Auth.SignedPayload.{Codec}
use blank.Audit.Log.{AuditEvent, record_audit_event}
use blank.Connectors.Throttle.{AttemptError, response_error, other_error}
use blank.Connectors.Tokens.{
  TokenResponse, Utf8, GrantError, invalid_grant, connector_error, http_error, unreadable_answer,
}
use blank.Connectors.Models.{
  ConnectorProvider, ConnectionKind, tenant_kind, ConnectorConnection, WebhookRoute,
}
use blank.Connectors.Registry.{RegistryError}
use blank.Connectors.Consent.{StatePayload, parse_state, ConsentError, validate_return_host}
use blank.Connectors.Callback.{
  Exchanged, exchange, CallbackState, CallbackAnswer, denied, connected, CallbackError, Fresh,
  http_exception, uncaught_response, uncaught_capability, tenant_commit_failed,
  control_commit_failed, enqueue_failed, committed, ConnectorTables, connected_event,
  tenant_is_served, exchange_error, granted_scopes, owner_of, store, with_scopes, exchanged,
  for_tenant, accepted_code, with_code, with_state, connector_oauth_callback, default_label,
}
use blank.Connectors.Upsert.{Consent, existing_connection, upsert_connection, ensure_webhook_route}
use blank.Connectors.Upsert.Rows.{IsStored, upsert_connection-IsStored}

has_route :
    (id : ℕ) (route_key : String) (tenant_id : ℕ) (provider : ConnectorProvider) (connection_id : ℕ)
    (routes : List WebhookRoute)
    → is_some (
        find
          (λ r. r.connection_id == connection_id)
          (ensure_webhook_route id route_key tenant_id provider connection_id routes))
      ≡ true
unfolding ensure_webhook_route
has_route id route_key tenant_id provider connection_id routes = ground arith

-- The answers that leave nothing.
abbrev pub is_unchanged : Result CallbackError CallbackAnswer → Bool
is_unchanged (ok (connected host)) = false
is_unchanged (ok (denied host)) = true
is_unchanged (err control_commit_failed) = false
is_unchanged (err enqueue_failed) = false
is_unchanged (err tenant_commit_failed) = true
is_unchanged (err (http_exception code)) = true
is_unchanged (err (uncaught_response code)) = true
is_unchanged (err (uncaught_capability e)) = true

module _ (kp : KeyProvider) (utf8 : Utf8) (codec : Codec StatePayload) (apex : List ℕ)
    (configured : ConnectorProvider → Bool) (tenants : List Tenant)
    (token_answer : String → Option (TokenResponse × List String))
    (label_answer : String → Option (Option String)) (show_id : ℕ → String)
    (audit_payload : ConnectorProvider → String → ConnectionKind → List String → String) where
  -- What is stored for a tenant: its connection, as a consent stores it, and an event in its audit log;
  -- the tables of the other tenants are untouched. The routes and the jobs are what they are.
  abbrev pub Stores :
      Tenant → CallbackState → CallbackState → (ConnectorConnection → Type 0) → Type 0
  Stores tenant s s' Rest =
      (q : Consent) × (c : ConnectorConnection) × (event : AuditEvent) × IsStored kp utf8 q
        (s.tables tenant.id).connections (existing_connection q (s.tables tenant.id).connections)
        (some (c, (s'.tables tenant.id).connections))
      × ((s'.tables tenant.id).audit ≡ event ∷ (s.tables tenant.id).audit)
      × ((event.action ≡ "connector.connected") × (event.resource_id ≡ show_id c.tokens.id))
      × ((i : ℕ) → (i == tenant.id) ≡ false → s'.tables i ≡ s.tables i)
      × Rest c

  abbrev pub HasRoute : CallbackState → ConnectorConnection → Type 0
  HasRoute s' c = is_some (find (λ r. r.connection_id == c.tokens.id) s'.routes) ≡ true

  -- What is left by each answer: the connection with its route and its job; the connection alone, where
  -- the second commit fails; the connection and its route, where the queue fails; otherwise nothing.
  abbrev pub Leaves :
      Result CallbackError CallbackAnswer → Tenant → CallbackState → CallbackState → Type 0
  Leaves (ok (connected host)) tenant s s' =
      Stores tenant s s' (λ c. HasRoute s' c × (s'.jobs ≡ (tenant.slug, c.tokens.id) ∷ s.jobs))
  Leaves (err control_commit_failed) tenant s s' =
      Stores tenant s s' (λ c. (s'.routes ≡ s.routes) × (s'.jobs ≡ s.jobs))
  Leaves (err enqueue_failed) tenant s s' =
      Stores tenant s s' (λ c. HasRoute s' c × (s'.jobs ≡ s.jobs))
  Leaves (ok (denied host)) tenant s s' = s' ≡ s
  Leaves (err tenant_commit_failed) tenant s s' = s' ≡ s
  Leaves (err (http_exception code)) tenant s s' = s' ≡ s
  Leaves (err (uncaught_response code)) tenant s s' = s' ≡ s
  Leaves (err (uncaught_capability e)) tenant s s' = s' ≡ s

  abbrev Stored :
      Tenant → CallbackState → Result CallbackError CallbackAnswer × CallbackState → Type 0
  Stored tenant s (answer, s') = Leaves answer tenant s s'

  committed-Stored :
      (tenant_commits control_commits queue_accepts : Bool) (f : Fresh)
      (provider : ConnectorProvider) (host : List ℕ) (tenant : Tenant) (q : Consent)
      (c : ConnectorConnection) (event : AuditEvent) (t : ConnectorTables) (s : CallbackState)
      → IsStored kp utf8 q
          (s.tables tenant.id).connections
          (existing_connection q (s.tables tenant.id).connections)
          (some (c, t.connections))
      → t.audit ≡ event ∷ (s.tables tenant.id).audit
      → (event.action ≡ "connector.connected") × (event.resource_id ≡ show_id c.tokens.id)
      → Stored tenant s (
          committed kp utf8 codec apex configured tenants token_answer label_answer show_id
            audit_payload tenant_commits control_commits queue_accepts f provider host tenant
            c.tokens.id t s)
  unfolding committed
  committed-Stored false control_commits queue_accepts f provider host tenant q c event t s h l e =
      refl
  committed-Stored true false queue_accepts f provider host tenant q c event t s h l e =
      let here : (tenant.id == tenant.id) ≡ true = ground arith in
      (q, c, event, rw here h, rw here l, e, (λ i other. rw other refl), (refl, refl))
  committed-Stored true true false f provider host tenant q c event t s h l e =
      let here : (tenant.id == tenant.id) ≡ true = ground arith in
      let routed = has_route f.route_id f.route_key tenant.id provider c.tokens.id s.routes in
      (q, c, event, rw here h, rw here l, e, (λ i other. rw other refl), (routed, refl))
  committed-Stored true true true f provider host tenant q c event t s h l e =
      let here : (tenant.id == tenant.id) ≡ true = ground arith in
      let routed = has_route f.route_id f.route_key tenant.id provider c.tokens.id s.routes in
      (q, c, event, rw here h, rw here l, e, (λ i other. rw other refl), (routed, refl))

  store-Stored :
      (f : Fresh) (provider : ConnectorProvider) (host : List ℕ) (tenant : Tenant) (q : Consent)
      (names : List String) (user_id : Option ℕ)
      (o : Option (ConnectorConnection × List ConnectorConnection)) (s : CallbackState)
      → IsStored kp utf8 q
          (s.tables tenant.id).connections
          (existing_connection q (s.tables tenant.id).connections)
          o
      → Stored tenant s (
          store kp utf8 codec apex configured tenants token_answer label_answer show_id
            audit_payload f provider host tenant q names user_id o s)
  unfolding store connected_event record_audit_event
  store-Stored f provider host tenant q names user_id none s h = refl
  store-Stored f provider host tenant q names user_id (some (c, table)) s h =
      committed-Stored f.tenant_commits f.control_commits f.queue_accepts f provider host tenant q c
        _ _ s h refl (refl, refl)

  with_scopes-Stored :
      (f : Fresh) (provider : ConnectorProvider) (host : List ℕ) (tenant : Tenant)
      (payload : StatePayload) (names : List String) (x : Exchanged)
      (r : Result RegistryError (List String)) (s : CallbackState)
      → Stored tenant s (
          with_scopes kp utf8 codec apex configured tenants token_answer label_answer show_id
            audit_payload f provider host tenant payload names x r s)
  unfolding with_scopes
  with_scopes-Stored f provider host tenant payload names x (err e) s = refl
  with_scopes-Stored f provider host tenant payload names x (ok scopes) s =
      let kind = or_default payload.k tenant_kind in
      let q : Consent = record {
        new_id = f.connection_id;
        now = f.now;
        provider = provider;
        kind = kind;
        user_id = owner_of kind payload.u;
        account_label = x.account_label;
        scopes = scopes;
        bundle = x.bundle;
        connection_id = payload.cid;
      } in
      let table = (s.tables tenant.id).connections in
      store-Stored f provider host tenant q names payload.u (upsert_connection kp utf8 q table) s
        (upsert_connection-IsStored kp utf8 q table)

  exchanged-Stored :
      (f : Fresh) (provider : ConnectorProvider) (host : List ℕ) (tenant : Tenant)
      (payload : StatePayload) (names : List String)
      (x : Result (AttemptError GrantError) Exchanged) (s : CallbackState)
      → Stored tenant s (
          exchanged kp utf8 codec apex configured tenants token_answer label_answer show_id
            audit_payload f provider host tenant payload names x s)
  unfolding exchanged exchange_error
  exchanged-Stored f provider host tenant payload names (err (other_error invalid_grant)) s = refl
  exchanged-Stored f provider host tenant payload names (err (other_error connector_error)) s = refl
  exchanged-Stored f provider host tenant payload names (err (other_error unreadable_answer)) s =
      refl
  exchanged-Stored f provider host tenant payload names (err (other_error http_error)) s = refl
  exchanged-Stored f provider host tenant payload names (err (response_error status delay)) s = refl
  exchanged-Stored f provider host tenant payload names (ok x) s =
      with_scopes-Stored f provider host tenant payload names x
        (granted_scopes provider names x.scopes) s

  -- The authority of what was stored: a signed state for this provider, a code, and a tenant that is
  -- served.
  abbrev pub IsAuthorized :
      (seconds : ℕ) → ConnectorProvider → List ℕ → (code : Option String) → Tenant → Type 0
  IsAuthorized seconds provider state code tenant =
      (payload : StatePayload) × (slug : String) × (names : List String) × (parse_state codec apex
          configured seconds state provider
        ≡ ok (payload, slug, names))
      × (is_some code ≡ true)
      × (find (λ t. str_eq t.slug slug) tenants ≡ some tenant)
      × (tenant_is_served tenant ≡ true)

  -- Nothing has changed, or it was authorized and is what the answer leaves.
  abbrev pub Concludes :
      (seconds : ℕ)
      → ConnectorProvider
      → List ℕ
      → (code : Option String) → CallbackState
      → Result CallbackError CallbackAnswer × CallbackState
      → Type 0
  Concludes seconds provider state code s (answer, s') =
      (is_unchanged answer ≡ true) × (s' ≡ s)
      ⊎ (tenant : Tenant) × IsAuthorized seconds provider state code tenant
        × Leaves answer tenant s s'

  module _ (f : Fresh) (seconds : ℕ) (provider : ConnectorProvider) (state : List ℕ)
      (s : CallbackState) where
    for_tenant-Concludes :
        (code : String) (payload : StatePayload) (slug : String) (names : List String)
        (o : Option Tenant)
        → parse_state codec apex configured seconds state provider ≡ ok (payload, slug, names)
        → find (λ (t : Tenant). str_eq t.slug slug) tenants ≡ o
        → Concludes seconds provider state (some code) s (
            for_tenant kp utf8 codec apex configured tenants token_answer label_answer show_id
              audit_payload f provider
              (validate_return_host apex payload.r)
              code
              payload
              names
              o
              s)
    unfolding for_tenant
    for_tenant-Concludes code payload slug names none read found = inl (refl, refl)
    for_tenant-Concludes code payload slug names (some tenant) read found =
        elim (Bool-cases (tenant_is_served tenant)) [
          | inr not_served ↦ rw not_served (inl (refl, refl))
          | inl served ↦
              let host = validate_return_host apex payload.r in
              let x =
                exchange (configured provider) (default_label provider) (token_answer code)
                  (label_answer code) in
              let stored = exchanged-Stored f provider host tenant payload names x s in
              rw served (inr (tenant, (payload, slug, names, read, refl, found, served), stored))
        ]

    with_state-Concludes :
        (code : Option String) (r : Result ConsentError (StatePayload × String × List String))
        → parse_state codec apex configured seconds state provider ≡ r
        → Concludes seconds provider state code s (
            with_state kp utf8 codec apex configured tenants token_answer label_answer show_id
              audit_payload f provider code r s)
    unfolding with_state with_code
    with_state-Concludes code (err e) read = inl (refl, refl)
    with_state-Concludes none (ok (payload, slug, names)) read = inl (refl, refl)
    with_state-Concludes (some code) (ok (payload, slug, names)) read =
        for_tenant-Concludes code payload slug names
          (find (λ (t : Tenant). str_eq t.slug slug) tenants) read refl

    -- A callback leaves nothing behind, unless it was called with a state that this server signed for
    -- this provider and with a code, and the tenant that the state names is active and not deleted.
    -- Where it connects the account, it leaves a connection of that tenant as a consent stores it, an
    -- event in the tenant's audit log, a route for its webhooks and a job for its subscriptions. Where
    -- the commit of the control database fails, the connection and its event stay, without a route and
    -- a job; where the queue fails, without a job. With any other answer nothing is stored, and the
    -- tables of no other tenant are ever touched.
    pub connector_oauth_callback-Concludes :
        (code error : Option String)
        → Concludes seconds provider state
            (accepted_code kp utf8 codec apex configured tenants token_answer label_answer show_id
              audit_payload code error)
            s
            (connector_oauth_callback kp utf8 codec apex configured tenants token_answer
              label_answer show_id audit_payload f seconds provider state code error s)
    unfolding connector_oauth_callback
    connector_oauth_callback-Concludes code error =
        with_state-Concludes
          (accepted_code kp utf8 codec apex configured tenants token_answer label_answer show_id
            audit_payload code error)
          (parse_state codec apex configured seconds state provider) refl
