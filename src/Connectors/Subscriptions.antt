-- ===== src/Connectors/Subscriptions.antt =====
-- apps/api/app/connectors/subscriptions.py and tasks.py: the subscriptions of a connection. The calls to
-- the providers, with the refresh of the token before them, are a parameter: they give the
-- provider's identifier and expiry, or fail.
pub mod Converges
use blank.Prelude.{
  ℕ, Bool, true, false, not, ◌&&◌, ◌||◌, Option, none, some, List, [], ◌∷◌, String, str_eq, ◌==◌,
  if◌then◌else◌, is_none,
}
use blank.Prelude.Table.{any, find, get, select, update}
use blank.Tenancy.Models.{Tenant, TenantState}
use blank.Connectors.Tokens.{Connection, is_active}
use blank.Connectors.Models.{
  ConnectorProvider, google, microsoft, ConnectorConnection, ConnectorSubscription, WebhookRoute,
}
use blank.Connectors.Registry.{
  capability_mail, capability_calendar, granted_capabilities, get_provider,
}

-- What the provider answers: its identifier, the expiry, and the resource's identifier at Google.
pub record Created : Type 0 where
  pub provider_subscription_id : String
  pub expires_at : ℕ
  pub resource_id : Option String

-- The rows of the tenant, and the state of the providers' side.
pub record SubscriptionState (S : Type 0) : Type 0 where
  pub subscriptions : List ConnectorSubscription
  pub network : S

-- The resource that is watched.
pub resource_of : ConnectorProvider → String → String
resource_of google capability = "calendar/primary/events"
resource_of microsoft capability =
    if str_eq capability capability_mail then "/me/messages" else "/me/events"

-- Gmail notifies by Pub/Sub only.
abbrev pub is_watchable : ConnectorProvider → String → Bool
is_watchable google capability = not (str_eq capability capability_mail)
is_watchable microsoft capability = true

-- The capability of a new row: a channel of Google is of the calendar.
abbrev pub watched_capability : ConnectorProvider → String → String
watched_capability google capability = capability_calendar
watched_capability microsoft capability = capability

abbrev pub has_subscription : ℕ → String → List ConnectorSubscription → Bool
has_subscription connection_id capability =
    any (λ s. s.connection_id == connection_id && str_eq s.capability capability)

-- A call that creates a subscription, with the secret that is drawn for it; identifiers and the hash
-- of the secret are drawn by row.
module _ {S : Type 0} (create : ConnectorProvider → String → S → Option Created × S)
    (new_id : String → ℕ) (secret_hash : String → String) where
  added :
      ConnectorConnection
      → String
      → Option Created
      → SubscriptionState S
      → Bool × SubscriptionState S
  added c capability none s = (false, s)
  added c capability (some answer) s = (
    true,
    record s {
      subscriptions =
          record {
            id = new_id capability;
            connection_id = c.tokens.id;
            capability = watched_capability c.provider capability;
            provider_subscription_id = answer.provider_subscription_id;
            resource = resource_of c.provider capability;
            expires_at = answer.expires_at;
            client_state_hash = secret_hash capability;
            resource_id = answer.resource_id;
          }
          ∷ s.subscriptions;
    },
  )

  -- `_create_google_channel` and `_create_graph_subscription`
  pub create_subscription :
      ConnectorConnection → String → SubscriptionState S → Bool × SubscriptionState S
  unfolding added resource_of
  create_subscription c capability s =
      let (answer, network) = create c.provider capability s.network in
      added c capability answer (record s { network = network })

  -- The loop over the granted capabilities; `false` is an exception, after which nothing is created.
  then_rest :
      (SubscriptionState S → Bool × SubscriptionState S)
      → Bool × SubscriptionState S
      → Bool × SubscriptionState S
  then_rest rest (false, s) = (false, s)
  then_rest rest (true, s) = rest s

  pub ensure_each :
      ConnectorConnection
      → (existing : List ConnectorSubscription) → List String
      → SubscriptionState S
      → Bool × SubscriptionState S
  unfolding create_subscription then_rest
  ensure_each c existing [] s = (true, s)
  ensure_each c existing (capability ∷ more) s =
      let rest = ensure_each c existing more in
      if has_subscription c.tokens.id capability existing
        || not (is_watchable c.provider capability)
      then rest s
      else then_rest rest (create_subscription c capability s)

  -- `ensure_subscriptions`, over the granted capabilities in some order.
  pub ensure_subscriptions : ConnectorConnection → SubscriptionState S → Bool × SubscriptionState S
  unfolding ensure_each
  ensure_subscriptions c s =
      ensure_each c s.subscriptions (granted_capabilities (get_provider c.provider) c.scopes) s
