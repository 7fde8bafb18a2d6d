-- ===== src/Connectors/Callback.antt =====
-- apps/api/app/connectors/oauth.py: the callback of a consent: the exchange of the code, the connection
-- in the tenant's database, the route of its webhooks, and the job that creates its subscriptions.
-- Identifiers of new rows, the route's key and the clock are arguments.
pub mod Outcome
use Prim.Native.String
use blank.Prelude.{
  ℕ, Bool, true, false, not, ◌&&◌, Option, none, some, List, [], ◌∷◌, String, str_eq, ◌==◌,
  if◌then◌else◌, is_none, or_default, Result, ok, err,
}
use blank.Prelude.Table.{find, get, update}
use blank.Core.Crypto.{KeyProvider}
use blank.Tenancy.Models.{Tenant, TenantState}
use blank.Auth.SignedPayload.{Codec}
use blank.Audit.Log.{AuditEvent, record_audit_event}
use blank.Connectors.Throttle.{AttemptError, response_error, other_error}
use blank.Connectors.Tokens.{
  Connection, ConnectionStatus, active, needs_reconsent, revoked, failing, TokenBundle,
  TokenResponse, Utf8, GrantError, invalid_grant, connector_error, http_error, unreadable_answer,
  parse_token_response, apply_token_bundle,
}
use blank.Connectors.Models.{
  ConnectorProvider, google, microsoft, same_provider, ConnectionKind, tenant_kind, user_kind,
  same_kind, ConnectorConnection, WebhookRoute,
}
use blank.Connectors.Registry.{extend, scopes_for, get_provider, RegistryError}
use blank.Connectors.Consent.{
  StatePayload, parse_state, provider_value, validate_return_host, ConsentError,
}
use blank.Connectors.Upsert.{Consent, existing_connection, upsert_connection, ensure_webhook_route}

-- What the exchange gives: the tokens, the scopes that the provider names, and the account.
pub record Exchanged : Type 0 where
  pub bundle : TokenBundle
  pub scopes : List String
  pub account_label : String

-- `exchange_code` and `fetch_account_label`, from the answers of the two endpoints: `none` is an error
-- of the network. An answer without a label gives a default one.
pub exchange :
    (configured : Bool) (fallback : String) (token_answer : Option (TokenResponse × List String))
    (label_answer : Option (Option String))
    → Result (AttemptError GrantError) Exchanged
exchange false fallback token_answer label_answer = err (other_error connector_error)
exchange true fallback none label_answer = err (other_error http_error)
exchange true fallback (some (response, scopes)) label_answer =
    elim (parse_token_response response) [
      | err e ↦ err e
      | ok bundle ↦ elim label_answer [
        | none ↦ err (other_error http_error)
        | some label ↦
            ok (record {
              bundle = bundle;
              scopes = scopes;
              account_label = or_default label fallback;
            })
      ]
    ]

-- The tables of a tenant's database that the callback writes.
pub record ConnectorTables : Type 0 where
  pub connections : List ConnectorConnection
  pub audit : List AuditEvent

-- Each tenant's tables, the routes of the control database, and the jobs of `enqueue_subscription_sync`.
pub record CallbackState : Type 0 where
  pub tables : ℕ → ConnectorTables
  pub routes : List WebhookRoute
  pub jobs : List (String × ℕ)

-- The redirections, by the host that they lead to.
pub data CallbackAnswer : Type 0 where
  denied connected : List ℕ → CallbackAnswer

-- `HTTPException` by its status code, and errors that no handler of the callback catches.
pub data CallbackError : Type 0 where
  http_exception : ℕ → CallbackError
  uncaught_response : ℕ → CallbackError
  uncaught_capability : RegistryError → CallbackError
  tenant_commit_failed control_commit_failed enqueue_failed : CallbackError

-- What is drawn for a request: identifiers, the route's key and the clock; and whether the commits and
-- the queue work.
pub record Fresh : Type 0 where
  pub connection_id : ℕ
  pub route_id : ℕ
  pub route_key : String
  pub audit_id : ℕ
  pub now : ℕ
  pub tenant_commits : Bool
  pub control_commits : Bool
  pub queue_accepts : Bool

abbrev pub tenant_is_served : Tenant → Bool
tenant_is_served tenant =
    (elim tenant.state [ TenantState.active ↦ true | TenantState.suspended ↦ false ])
    && is_none tenant.deleted_at

exchange_error : AttemptError GrantError → CallbackError
exchange_error (other_error invalid_grant) = http_exception 400
exchange_error (other_error connector_error) = http_exception 400
exchange_error (other_error unreadable_answer) = uncaught_response 200
exchange_error (other_error http_error) = http_exception 502
exchange_error (response_error status delay) = uncaught_response status

-- `bundle.scopes or manifest.scopes_for(capabilities)`
pub granted_scopes :
    ConnectorProvider → List String → List String → Result RegistryError (List String)
granted_scopes provider names [] = scopes_for (get_provider provider) names
granted_scopes provider names (s ∷ scopes) = ok (s ∷ scopes)

-- `f"compte {provider.value}"`
abbrev pub default_label : ConnectorProvider → String
default_label provider = String.◌++◌ "compte " (provider_value provider)

-- The user of a personal connection.
abbrev pub owner_of : ConnectionKind → Option ℕ → Option ℕ
owner_of tenant_kind user_id = none
owner_of user_kind user_id = user_id

module _ (kp : KeyProvider) (utf8 : Utf8) (codec : Codec StatePayload) (apex : List ℕ)
    (configured : ConnectorProvider → Bool) (tenants : List Tenant)
    (token_answer : String → Option (TokenResponse × List String))
    (label_answer : String → Option (Option String)) (show_id : ℕ → String)
    (audit_payload : ConnectorProvider → String → ConnectionKind → List String → String) where
  connected_event :
      Fresh
      → ConnectorProvider
      → Consent
      → List String
      → Option ℕ
      → ConnectorConnection
      → List AuditEvent
      → List AuditEvent
  connected_event f provider q names user_id c log =
      record_audit_event f.audit_id f.now "connector.connected" "connector_connection"
        (show_id c.tokens.id) (audit_payload provider q.account_label q.kind names) user_id
        q.account_label log

  -- What follows the upsert: the commit of the tenant's session, the route with the commit of the control
  -- session, and the job. A step that fails leaves what was committed before it.
  pub committed :
      (tenant_commits control_commits queue_accepts : Bool)
      → Fresh
      → ConnectorProvider
      → List ℕ
      → Tenant
      → (connection_id : ℕ) → ConnectorTables
      → CallbackState
      → Result CallbackError CallbackAnswer × CallbackState
  committed false control_commits queue_accepts f provider host tenant id t s =
      (err tenant_commit_failed, s)
  committed true control_commits queue_accepts f provider host tenant id t s =
      let tables = λ (i : ℕ). if i == tenant.id then t else s.tables i in
      let routes = ensure_webhook_route f.route_id f.route_key tenant.id provider id s.routes in
      if not control_commits
      then (err control_commit_failed, record { tables = tables; routes = s.routes; jobs = s.jobs })
      else (if not queue_accepts
          then (err enqueue_failed, record { tables = tables; routes = routes; jobs = s.jobs })
          else (
            ok (connected host),
            record { tables = tables; routes = routes; jobs = (tenant.slug, id) ∷ s.jobs },
          ))

  pub store :
      Fresh
      → ConnectorProvider
      → List ℕ
      → Tenant
      → Consent
      → List String
      → Option ℕ
      → Option (ConnectorConnection × List ConnectorConnection)
      → CallbackState
      → Result CallbackError CallbackAnswer × CallbackState
  unfolding connected_event committed
  store f provider host tenant q names user_id none s = (err (http_exception 400), s)
  store f provider host tenant q names user_id (some (c, table)) s =
      let t : ConnectorTables = record {
        connections = table;
        audit = connected_event f provider q names user_id c (s.tables tenant.id).audit;
      } in
      committed f.tenant_commits f.control_commits f.queue_accepts f provider host tenant
        c.tokens.id t s

  with_scopes :
      Fresh
      → ConnectorProvider
      → List ℕ
      → Tenant
      → StatePayload
      → List String
      → Exchanged
      → Result RegistryError (List String)
      → CallbackState
      → Result CallbackError CallbackAnswer × CallbackState
  unfolding store
  with_scopes f provider host tenant payload names x (err e) s = (err (uncaught_capability e), s)
  with_scopes f provider host tenant payload names x (ok scopes) s =
      let kind = or_default payload.k tenant_kind in
      let q : Consent = record {
        new_id = f.connection_id;
        now = f.now;
        provider = provider;
        kind = kind;
        user_id = owner_of kind payload.u;
        account_label = x.account_label;
        scopes = scopes;
        bundle = x.bundle;
        connection_id = payload.cid;
      } in
      store f provider host tenant q names payload.u
        (upsert_connection kp utf8 q (s.tables tenant.id).connections) s

  exchanged :
      Fresh
      → ConnectorProvider
      → List ℕ
      → Tenant
      → StatePayload
      → List String
      → Result (AttemptError GrantError) Exchanged
      → CallbackState
      → Result CallbackError CallbackAnswer × CallbackState
  unfolding with_scopes exchange_error granted_scopes
  exchanged f provider host tenant payload names (err e) s = (err (exchange_error e), s)
  exchanged f provider host tenant payload names (ok x) s =
      with_scopes f provider host tenant payload names x (granted_scopes provider names x.scopes) s

  for_tenant :
      Fresh
      → ConnectorProvider
      → List ℕ
      → String
      → StatePayload
      → List String
      → Option Tenant
      → CallbackState
      → Result CallbackError CallbackAnswer × CallbackState
  unfolding exchanged exchange
  for_tenant f provider host code payload names none s = (err (http_exception 400), s)
  for_tenant f provider host code payload names (some tenant) s =
      if not (tenant_is_served tenant)
      then (err (http_exception 400), s)
      else exchanged f provider host tenant payload names
          (exchange (configured provider) (default_label provider) (token_answer code)
            (label_answer code))
          s

  -- What the provider has sent back: a code, unless it names an error.
  abbrev pub accepted_code : (code error : Option String) → Option String
  accepted_code code none = code
  accepted_code code (some error) = none

  with_code :
      Fresh
      → ConnectorProvider
      → StatePayload
      → String
      → List String
      → Option String
      → CallbackState
      → Result CallbackError CallbackAnswer × CallbackState
  unfolding for_tenant
  with_code f provider payload slug names none s =
      (ok (denied (validate_return_host apex payload.r)), s)
  with_code f provider payload slug names (some code) s =
      for_tenant f provider (validate_return_host apex payload.r) code payload names
        (find (λ (t : Tenant). str_eq t.slug slug) tenants) s

  with_state :
      Fresh
      → ConnectorProvider
      → Option String
      → Result ConsentError (StatePayload × String × List String)
      → CallbackState
      → Result CallbackError CallbackAnswer × CallbackState
  unfolding with_code
  with_state f provider code (err e) s = (err (http_exception 400), s)
  with_state f provider code (ok (payload, slug, names)) s =
      with_code f provider payload slug names code s

  -- `connector_oauth_callback`; the instants of signed states are whole seconds.
  pub connector_oauth_callback :
      Fresh
      → (seconds : ℕ) → ConnectorProvider
      → (state : List ℕ) → (code error : Option String) → CallbackState
      → Result CallbackError CallbackAnswer × CallbackState
  unfolding with_state
  connector_oauth_callback f seconds provider state code error s =
      with_state f provider (accepted_code code error)
        (parse_state codec apex configured seconds state provider) s
