-- ===== src/Connectors/Webhooks.antt =====
-- apps/api/app/connectors/webhooks.py: notifications of the providers, on a route that anyone can call.
-- The hash of a token is sha256, the environment's; a text of a JSON body may have no encoding, and then
-- the hash raises.
pub mod Authentic
use blank.Prelude.{
  ℕ, Bool, true, false, not, ◌&&◌, ◌||◌, Option, none, some, List, [], ◌∷◌, String, str_eq, ◌==◌,
  if◌then◌else◌, is_none, or_default,
}
use blank.Prelude.Table.{find, get, select}
use blank.Core.Config.{Env}
use blank.Tenancy.Models.{Tenant, TenantState}
use blank.Connectors.Models.{
  ConnectorProvider, google, microsoft, same_provider, ConnectorSubscription, WebhookRoute,
}

-- An item of Microsoft's list: its `clientState` and the `id` of its `resourceData` may be missing.
pub record Notification : Type 0 where
  pub subscription_id : String
  pub client_state : Option String
  pub change_type : Option String
  pub resource_id : Option String

-- The body of a request. It is `unreadable` if it is no JSON, no object, or has no list under `value`;
-- an item that is no object is `none`.
pub data Body : Type 0 where
  unreadable : Body
  notifications : List (Option Notification) → Body

pub record WebhookRequest : Type 0 where
  pub validation_token : Option String
  pub body : Body
  pub channel_id : Option String
  pub channel_token : Option String
  pub resource_state : Option String
  pub channel_resource_id : Option String

-- What is validated: the subscription, the type of the change, and the resource.
abbrev pub Validated : Type 0
Validated = ConnectorSubscription × String × Option String

-- The arguments of `enqueue_event`.
pub record EnqueuedEvent : Type 0 where
  pub slug : String
  pub connection_id : ℕ
  pub provider : ConnectorProvider
  pub capability : String
  pub change_type : String
  pub resource_id : Option String

-- The echo of Microsoft's handshake, the answer of every other request, and that of an exception.
pub data WebhookResponse : Type 0 where
  echo : String → WebhookResponse
  neutral server_error : WebhookResponse

-- The dictionary by `provider_subscription_id`: of two rows with one text, the later.
pub subscription_by_id : String → List ConnectorSubscription → Option ConnectorSubscription
subscription_by_id key [] = none
subscription_by_id key (s ∷ rows) = elim (subscription_by_id key rows) [
  | some later ↦ some later
  | none ↦ if str_eq s.provider_subscription_id key then some s else none
]

-- The hash of a secret is taken for a known subscription; `encodes` is whether its text has an encoding.
pub secret_raises : (String → Bool) → Option String → Option ConnectorSubscription → Bool
secret_raises encodes none s = false
secret_raises encodes (some secret) none = false
secret_raises encodes (some secret) (some s) = not (encodes secret)

pub items_raise : (String → Bool) → List ConnectorSubscription → List (Option Notification) → Bool
unfolding secret_raises
items_raise encodes rows [] = false
items_raise encodes rows (none ∷ items) = items_raise encodes rows items
items_raise encodes rows (some n ∷ items) =
    secret_raises encodes n.client_state (subscription_by_id n.subscription_id rows)
    || items_raise encodes rows items

-- The headers of a channel have an encoding.
pub hash_raises : (String → Bool) → List ConnectorSubscription → ConnectorProvider → Body → Bool
unfolding items_raise
hash_raises encodes rows google body = false
hash_raises encodes rows microsoft unreadable = false
hash_raises encodes rows microsoft (notifications items) = items_raise encodes rows items

module _ (env : Env) where
  -- The secret's hash is that of the subscription.
  pub knows_secret : Option String → ConnectorSubscription → Bool
  knows_secret none s = false
  knows_secret (some secret) s = str_eq (env.sha256_hex secret) s.client_state_hash

  graph_validated : Notification → Option ConnectorSubscription → List Validated → List Validated
  graph_validated n none rest = rest
  graph_validated n (some s) rest =
      if knows_secret n.client_state s
      then (s, or_default n.change_type "updated", n.resource_id) ∷ rest
      else rest

  pub graph_notifications : List ConnectorSubscription → List (Option Notification) → List Validated
  unfolding graph_validated
  graph_notifications rows [] = []
  graph_notifications rows (none ∷ items) = graph_notifications rows items
  graph_notifications rows (some n ∷ items) =
      graph_validated n (subscription_by_id n.subscription_id rows) (graph_notifications rows items)

  pub graph_body : List ConnectorSubscription → Body → List Validated
  graph_body rows unreadable = []
  graph_body rows (notifications items) = graph_notifications rows items

  -- `headers.get(name, "")`, where an empty token is none.
  pub truthy : Option String → Option String
  truthy none = none
  truthy (some text) = if str_eq text "" then none else some text

  channel_validated : WebhookRequest → Option ConnectorSubscription → List Validated
  channel_validated req none = []
  channel_validated req (some s) =
      if not (knows_secret (truthy req.channel_token) s)
      then []
      else (if str_eq (or_default req.resource_state "") "sync"
          then []
          else (s, or_default (truthy req.resource_state) "updated", req.channel_resource_id) ∷ [])

  -- What `_validated_notifications` returns, on the rows that the tenant's session sees.
  pub validated_notifications :
      List ConnectorSubscription → ConnectorProvider → ℕ → WebhookRequest → List Validated
  unfolding channel_validated graph_body
  validated_notifications table microsoft connection_id req =
      graph_body (select (λ s. s.connection_id == connection_id) table) req.body
  validated_notifications table google connection_id req = channel_validated req (
      subscription_by_id (or_default req.channel_id "")
        (select (λ s. s.connection_id == connection_id) table))

  enqueued : Tenant → WebhookRoute → ConnectorProvider → List Validated → List EnqueuedEvent
  enqueued tenant route provider [] = []
  enqueued tenant route provider ((s, change_type, resource_id) ∷ rest) =
      record {
        slug = tenant.slug;
        connection_id = route.connection_id;
        provider = provider;
        capability = s.capability;
        change_type = change_type;
        resource_id = resource_id;
      }
      ∷ enqueued tenant route provider rest

  module _ (routes : List WebhookRoute) (tenants : List Tenant)
      (subscriptions : ℕ → List ConnectorSubscription) (encodes : String → Bool)
      (accepts : EnqueuedEvent → Bool) where
    -- The tenant exists, is active and is not deleted.
    abbrev pub is_served : Tenant → Bool
    is_served tenant =
        (elim tenant.state [ TenantState.active ↦ true | TenantState.suspended ↦ false ])
        && is_none tenant.deleted_at

    -- The loop of `enqueue_event`: the queue may refuse an event, which ends it.
    pub publish : List EnqueuedEvent → WebhookResponse × List EnqueuedEvent
    publish [] = (neutral, [])
    publish (event ∷ events) =
        let (answer, rest) = publish events in
        if accepts event then (answer, event ∷ rest) else (server_error, [])

    -- `_validated_notifications`; `none` is the exception of the hash.
    pub validated_or_raised :
        List ConnectorSubscription
        → ConnectorProvider
        → ℕ
        → WebhookRequest
        → Option (List Validated)
    unfolding hash_raises
    validated_or_raised table provider connection_id req =
        if hash_raises encodes (select (λ s. s.connection_id == connection_id) table) provider
          req.body
        then none
        else some (validated_notifications table provider connection_id req)

    published :
        Tenant
        → WebhookRoute
        → ConnectorProvider
        → Option (List Validated)
        → WebhookResponse × List EnqueuedEvent
    unfolding publish enqueued
    published tenant route provider none = (server_error, [])
    published tenant route provider (some vs) = publish (enqueued tenant route provider vs)

    for_tenant :
        WebhookRoute
        → ConnectorProvider
        → WebhookRequest
        → Option Tenant
        → WebhookResponse × List EnqueuedEvent
    unfolding published validated_or_raised
    for_tenant route provider req none = (neutral, [])
    for_tenant route provider req (some tenant) =
        if is_served tenant
        then published tenant route provider
            (validated_or_raised (subscriptions tenant.id) provider route.connection_id req)
        else (neutral, [])

    for_route :
        ConnectorProvider
        → WebhookRequest
        → Option WebhookRoute
        → WebhookResponse × List EnqueuedEvent
    unfolding for_tenant
    for_route provider req none = (neutral, [])
    for_route provider req (some route) =
        for_tenant route provider req (get (λ t. t.id) route.tenant_id tenants)

    abbrev pub is_route : String → ConnectorProvider → WebhookRoute → Bool
    is_route route_key provider r =
        str_eq r.route_key route_key && same_provider r.provider provider

    -- The handshake is answered before anything is looked up.
    pub answered :
        Option String → WebhookResponse × List EnqueuedEvent → WebhookResponse × List EnqueuedEvent
    answered none out = out
    answered (some token) out = (echo token, [])

    -- `receive_webhook`: the answer, and the events handed to the queue.
    pub receive_webhook :
        ConnectorProvider → String → WebhookRequest → WebhookResponse × List EnqueuedEvent
    unfolding for_route answered
    receive_webhook provider route_key req =
        answered req.validation_token
          (for_route provider req (find (is_route route_key provider) routes))
