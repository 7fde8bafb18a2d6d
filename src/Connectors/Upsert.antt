-- ===== src/Connectors/Upsert.antt =====
-- apps/api/app/connectors/oauth.py: `_upsert_connection`, which stores what a consent gives, and
-- `_ensure_webhook_route`.
pub mod Rows
use Prim.Native.String
use blank.Prelude.{
  ℕ, Bool, true, false, not, ◌&&◌, Option, none, some, List, [], ◌∷◌, String, str_eq, ◌==◌,
  if◌then◌else◌, is_none, or_default, Result, ok, err,
}
use blank.Prelude.Table.{find, get, update}
use blank.Core.Crypto.{KeyProvider}
use blank.Tenancy.Models.{Tenant, TenantState}
use blank.Auth.SignedPayload.{Codec}
use blank.Audit.Log.{AuditEvent, record_audit_event}
use blank.Connectors.Throttle.{AttemptError, response_error, other_error}
use blank.Connectors.Tokens.{
  Connection, ConnectionStatus, active, needs_reconsent, revoked, failing, TokenBundle,
  TokenResponse, Utf8, GrantError, invalid_grant, connector_error, http_error, parse_token_response,
  apply_token_bundle,
}
use blank.Connectors.Models.{
  ConnectorProvider, google, microsoft, same_provider, ConnectionKind, tenant_kind, user_kind,
  same_kind, ConnectorConnection, WebhookRoute,
}
use blank.Connectors.Registry.{extend, scopes_for, get_provider, RegistryError}
use blank.Connectors.Consent.{
  StatePayload, parse_state, provider_value, validate_return_host, ConsentError,
}

abbrev pub is_revoked : ConnectionStatus → Bool
is_revoked active = false
is_revoked needs_reconsent = false
is_revoked revoked = true
is_revoked failing = false

abbrev pub is_empty_bytes : List ℕ → Bool
is_empty_bytes [] = true
is_empty_bytes (_ ∷ _) = false

-- The arguments of `_upsert_connection`, with the identifier of a new row.
pub record Consent : Type 0 where
  pub new_id : ℕ
  pub now : ℕ
  pub provider : ConnectorProvider
  pub kind : ConnectionKind
  pub user_id : Option ℕ
  pub account_label : String
  pub scopes : List String
  pub bundle : TokenBundle
  pub connection_id : Option ℕ

abbrev pub row_by_id : Option ℕ → List ConnectorConnection → Option ConnectorConnection
row_by_id none table = none
row_by_id (some id) table = get (λ c. c.tokens.id) id table

abbrev pub same_account : Consent → ConnectorConnection → Bool
same_account q c =
    same_provider c.provider q.provider
    && same_kind c.kind q.kind
    && str_eq c.account_label q.account_label
    && not (is_revoked c.tokens.status)

or_same_account :
    Consent → List ConnectorConnection → Option ConnectorConnection → Option ConnectorConnection
or_same_account q table none = find (same_account q) table
or_same_account q table (some c) = some c

-- The connection to revive, or one of the same account that is not revoked.
pub existing_connection : Consent → List ConnectorConnection → Option ConnectorConnection
unfolding or_same_account
existing_connection q table = or_same_account q table (row_by_id q.connection_id table)

module _ (kp : KeyProvider) (utf8 : Utf8) where
  -- The connection with the new tokens, unless it has no refresh token then.
  pub with_bundle : Consent → ConnectorConnection → Option ConnectorConnection
  with_bundle q c =
      let tokens = apply_token_bundle kp utf8 q.now q.bundle c.tokens in
      if is_empty_bytes tokens.refresh_token_enc then none else some (record c { tokens = tokens })

  abbrev pub new_connection : Consent → ConnectorConnection
  new_connection q = record {
    provider = q.provider;
    kind = q.kind;
    user_id = q.user_id;
    account_label = q.account_label;
    scopes = q.scopes;
    tokens = record {
      id = q.new_id;
      status = active;
      access_token_enc = [];
      refresh_token_enc = [];
      access_token_expires_at = q.now;
      last_error = none;
      health_checked_at = none;
    };
  }

  -- The union of the scopes, but for their order.
  abbrev pub revived_connection : Consent → ConnectorConnection → ConnectorConnection
  revived_connection q c = record c {
    account_label = q.account_label;
    scopes = extend c.scopes q.scopes;
  }

  stored_new :
      List ConnectorConnection
      → Option ConnectorConnection
      → Option (ConnectorConnection × List ConnectorConnection)
  stored_new table none = none
  stored_new table (some c) = some (c, c ∷ table)

  stored_old :
      List ConnectorConnection
      → Option ConnectorConnection
      → Option (ConnectorConnection × List ConnectorConnection)
  stored_old table none = none
  stored_old table (some c) = some (c, update (λ x. x.tokens.id) c.tokens.id (λ _. c) table)

  upsert_at :
      Consent
      → List ConnectorConnection
      → Option ConnectorConnection
      → Option (ConnectorConnection × List ConnectorConnection)
  unfolding with_bundle stored_new stored_old
  upsert_at q table none =
      if is_none q.bundle.refresh_token
      then none
      else stored_new table (with_bundle q (new_connection q))
  upsert_at q table (some c) = stored_old table (with_bundle q (revived_connection q c))

  -- `_upsert_connection`; `none` is a missing refresh token.
  pub upsert_connection :
      Consent → List ConnectorConnection → Option (ConnectorConnection × List ConnectorConnection)
  unfolding upsert_at existing_connection
  upsert_connection q table = upsert_at q table (existing_connection q table)

-- `_ensure_webhook_route`
unfoldable pub ensure_webhook_route :
    (id : ℕ) (route_key : String) (tenant_id : ℕ) (provider : ConnectorProvider) (connection_id : ℕ)
    → List WebhookRoute
    → List WebhookRoute
ensure_webhook_route id route_key tenant_id provider connection_id routes =
    elim (find (λ r. r.connection_id == connection_id) routes) [
      | some r ↦ routes
      | none ↦
          record {
            id = id;
            route_key = route_key;
            provider = provider;
            tenant_id = tenant_id;
            connection_id = connection_id;
          }
          ∷ routes
    ]
