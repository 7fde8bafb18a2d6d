-- ===== src/Connectors/Consent.antt =====
-- apps/api/app/connectors/oauth.py: the consent of a third party, from the signed state to the stored
-- connection. The provider's endpoints are reached over HTTP: their answers are parameters. Hosts are
-- texts by their code points.
pub mod RoundTrip
pub mod Hosts
use blank.Prelude.{
  ℕ, ◌+◌, Bool, true, false, not, ◌&&◌, ◌||◌, Option, none, some, List, [], ◌∷◌, ◌++◌, String,
  str_eq, ◌==◌, if◌then◌else◌, is_none, is_some, or_default, Result, ok, err, map_err,
}
use blank.Prelude.Text.{contains}
use blank.Prelude.Table.{find, get, select, update}
use blank.Core.Crypto.{KeyProvider}
use blank.Tenancy.Models.{Tenant, TenantState}
use blank.Auth.SignedPayload.{Codec, PayloadError, sign_payload, verify_payload}
use blank.Audit.Log.{AuditEvent, record_audit_event}
use blank.Connectors.Throttle.{AttemptError, response_error, other_error}
use blank.Connectors.Tokens.{
  Connection, ConnectionStatus, active, needs_reconsent, revoked, failing, TokenBundle,
  TokenResponse, Utf8, GrantError, invalid_grant, connector_error, http_error, parse_token_response,
  apply_token_bundle,
}
use blank.Connectors.Models.{
  ConnectorProvider, google, microsoft, same_provider, ConnectionKind, tenant_kind, user_kind,
  same_kind, ConnectorConnection, WebhookRoute,
}
use blank.Connectors.Registry.{
  ProviderManifest, known_capabilities, capabilities, extend, scopes_for, get_provider,
  RegistryError,
}

-- The part of a host before its port.
unfoldable pub before_colon : List ℕ → List ℕ
before_colon [] = []
before_colon (c ∷ cs) = let rest = before_colon cs in if c == b':' then [] else c ∷ rest

unfoldable pub same_text : List ℕ → List ℕ → Bool
same_text [] [] = true
same_text (a ∷ xs) (b ∷ ys) = if a == b then same_text xs ys else false
same_text [] (b ∷ ys) = false
same_text (a ∷ xs) [] = false

-- `text.endswith(suffix)`
unfoldable pub ends_with : List ℕ → List ℕ → Bool
unfolding same_text
ends_with [] suffix = same_text [] suffix
ends_with (c ∷ cs) suffix = if same_text (c ∷ cs) suffix then true else ends_with cs suffix

-- `_validate_return_host`, for the host of the public URL.
unfoldable pub validate_return_host : (apex host : List ℕ) → List ℕ
unfolding before_colon ends_with same_text
validate_return_host apex host =
    let bare = before_colon host in
    let apex_bare = before_colon apex in
    if same_text bare apex_bare || ends_with bare (b'.' ∷ apex_bare) then host else apex

-- `ConnectorOAuthError`, by message.
pub data ConsentError : Type 0 where
  invalid_capabilities unsupported_capabilities not_configured : ConsentError
  invalid_state other_provider incomplete_state : ConsentError

unfoldable pub all_among : List String → List String → Bool
all_among known [] = true
all_among known (c ∷ cs) = if contains known c then all_among known cs else false

abbrev is_empty_list : List String → Bool
is_empty_list [] = true
is_empty_list (_ ∷ _) = false

unfoldable pub validate_capabilities :
    ProviderManifest → List String → Result ConsentError (List String)
unfolding all_among
validate_capabilities m names =
    if not (all_among known_capabilities names) || is_empty_list names
    then err invalid_capabilities
    else (if not (all_among (capabilities m) names) then err unsupported_capabilities else ok names)

abbrev pub provider_value : ConnectorProvider → String
provider_value google = "google"
provider_value microsoft = "microsoft"

-- The payload of the state: `p`, `t`, `u`, `k`, `c`, `r` and `cid`, `none` where a key is missing or has
-- another type.
pub record StatePayload : Type 0 where
  pub p : Option String
  pub t : Option String
  pub u : Option ℕ
  pub k : Option ConnectionKind
  pub c : Option (List String)
  pub r : List ℕ
  pub cid : Option ℕ

abbrev pub state_ttl_seconds : ℕ
state_ttl_seconds = 600

-- What `build_authorization_url` puts into the URL: the scopes and the state.
pub record Authorization : Type 0 where
  pub scopes : List String
  pub state : List ℕ

module _ (codec : Codec StatePayload) (apex : List ℕ) (configured : ConnectorProvider → Bool) where
  unfoldable pub signed :
      ℕ → StatePayload → Result RegistryError (List String) → Result ConsentError Authorization
  signed now payload (err e) = err unsupported_capabilities
  signed now payload (ok scopes) =
      ok (record { scopes = scopes; state = sign_payload codec now payload state_ttl_seconds })

  unfoldable pub build_authorization_url :
      (now : ℕ) (provider : ConnectorProvider) (tenant_slug : String) (user_id : ℕ)
      (kind : ConnectionKind) (names : List String) (return_host : List ℕ)
      (connection_id : Option ℕ)
      → Result ConsentError Authorization
  unfolding signed validate_return_host
  build_authorization_url now provider tenant_slug user_id kind names return_host connection_id =
      elim (validate_capabilities (get_provider provider) names) [
        | err e ↦ err e
        | ok chosen ↦
            if not (configured provider)
            then err not_configured
            else signed now
                (record {
                  p = some (provider_value provider);
                  t = some tenant_slug;
                  u = some user_id;
                  k = some kind;
                  c = some names;
                  r = validate_return_host apex return_host;
                  cid = connection_id;
                })
                (scopes_for (get_provider provider) names)
      ]

  unfoldable pub checked_payload :
      ConnectorProvider → StatePayload → Result ConsentError (StatePayload × String × List String)
  checked_payload expected payload =
      if not (str_eq (or_default payload.p "") (provider_value expected))
      then err other_provider
      else elim payload.t [
        | none ↦ err incomplete_state
        | some slug ↦ elim payload.c [
          | none ↦ err incomplete_state
          | some names ↦ ok (payload, slug, names)
        ]
      ]

  unfoldable pub read_state :
      ConnectorProvider
      → Result PayloadError StatePayload
      → Result ConsentError (StatePayload × String × List String)
  unfolding checked_payload
  read_state expected (err e) = err invalid_state
  read_state expected (ok payload) = checked_payload expected payload

  -- `parse_state`, with the tenant's slug and the capabilities that it has checked.
  unfoldable pub parse_state :
      (now : ℕ)
      → List ℕ
      → ConnectorProvider
      → Result ConsentError (StatePayload × String × List String)
  unfolding read_state
  parse_state now state expected = read_state expected (verify_payload codec now state)
