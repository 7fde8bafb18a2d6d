-- ===== src/Connectors/Models.antt =====
-- apps/api/app/connectors/tenant_models.py and models.py: connections, subscriptions, and the routes of
-- the webhooks. `created_at` and `updated_at` are left out.
use blank.Prelude.{ℕ, Bool, true, false, Option, List, String}
use blank.Connectors.Tokens.{Connection}

pub data ConnectorProvider : Type 0 where
  google microsoft : ConnectorProvider

pub data ConnectionKind : Type 0 where
  tenant_kind user_kind : ConnectionKind

abbrev pub same_provider : ConnectorProvider → ConnectorProvider → Bool
same_provider google google = true
same_provider microsoft microsoft = true
same_provider _ _ = false

abbrev pub same_kind : ConnectionKind → ConnectionKind → Bool
same_kind tenant_kind tenant_kind = true
same_kind user_kind user_kind = true
same_kind _ _ = false

-- The connection, with the columns of its tokens apart.
pub record ConnectorConnection : Type 0 where
  pub provider : ConnectorProvider
  pub kind : ConnectionKind
  pub user_id : Option ℕ
  pub account_label : String
  pub scopes : List String
  pub tokens : Connection

pub record ConnectorSubscription : Type 0 where
  pub id : ℕ
  pub connection_id : ℕ
  pub capability : String
  pub provider_subscription_id : String
  pub resource : String
  pub expires_at : ℕ
  pub client_state_hash : String
  pub resource_id : Option String

pub record WebhookRoute : Type 0 where
  pub id : ℕ
  pub route_key : String
  pub provider : ConnectorProvider
  pub tenant_id : ℕ
  pub connection_id : ℕ
