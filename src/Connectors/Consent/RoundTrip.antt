-- ===== src/Connectors/Consent/RoundTrip.antt =====
-- apps/api/app/connectors/oauth.py: the state of an authorization, read back by the callback.
use blank.Prelude.{
  ℕ, ◌+◌, ◌≡◌, refl, inl, inr, Bool, true, Option, some, List, String, str_eq, arith, ltb,
  if◌then◌else◌, Bool-cases, ok, err, Result-cases,
}
use blank.Prelude.Text.{contains}
use blank.Prelude.Table.{All}
use blank.Auth.SignedPayload.{Codec, ReadsBack, sign_payload, verify-sign}
use blank.Connectors.Models.{ConnectorProvider, google, microsoft, same_provider, ConnectionKind}
use blank.Connectors.Registry.{scopes_for, get_provider, granted_capabilities}
use blank.Connectors.Registry.Granted.{granted_capabilities-scopes_for, Covered}
use blank.Connectors.Consent.{
  validate_return_host, validate_capabilities, provider_value, StatePayload, Authorization,
  invalid_state, other_provider, state_ttl_seconds, signed, build_authorization_url,
  checked_payload, read_state, parse_state,
}

str_eq-provider_value :
    (a b : ConnectorProvider) → str_eq (provider_value a) (provider_value b) ≡ same_provider a b
str_eq-provider_value google google = refl
str_eq-provider_value google microsoft = refl
str_eq-provider_value microsoft google = refl
str_eq-provider_value microsoft microsoft = refl

module _ (codec : Codec StatePayload) (apex : List ℕ) (configured : ConnectorProvider → Bool)
    (now : ℕ) (provider : ConnectorProvider) (tenant_slug : String) (user_id : ℕ)
    (kind : ConnectionKind) (names : List String) (return_host : List ℕ)
    (connection_id : Option ℕ) where
  abbrev pub payload : StatePayload
  payload = record {
    p = some (provider_value provider);
    t = some tenant_slug;
    u = some user_id;
    k = some kind;
    c = some names;
    r = validate_return_host apex return_host;
    cid = connection_id;
  }

  signed-ok :
      (r : _) {a : Authorization}
      → signed codec apex configured now payload r ≡ ok a
      → (r ≡ ok a.scopes) × (a.state ≡ sign_payload codec now payload state_ttl_seconds)
  unfolding signed
  signed-ok (err e) h = cc
  signed-ok (ok scopes) {a} h = (ground arith, ground arith)

  parse_state-signed :
      (later : ℕ) (expected : ConnectorProvider)
      → ReadsBack codec payload (now + state_ttl_seconds)
      → parse_state codec apex configured later
          (sign_payload codec now payload state_ttl_seconds)
          expected
        ≡ (if ltb (now + state_ttl_seconds) later
            then err invalid_state
            else (if same_provider provider expected
                then ok (payload, tenant_slug, names)
                else err other_provider))
  unfolding parse_state read_state checked_payload
  parse_state-signed later expected law = elim (Bool-cases (ltb (now + state_ttl_seconds) later)) [
    | inl late ↦ rw (verify-sign codec now later state_ttl_seconds payload law, late) refl
    | inr early ↦ elim (Bool-cases (same_provider provider expected)) [
      | inl same ↦
          rw (verify-sign codec now later state_ttl_seconds payload law, early)
            (rw (str_eq-provider_value provider expected, same) refl)
      | inr other ↦
          rw (verify-sign codec now later state_ttl_seconds payload law, early)
            (rw (str_eq-provider_value provider expected, other) refl)
    ]
  ]

  authorization-signed :
      {a : Authorization}
      → build_authorization_url codec apex configured now provider tenant_slug user_id kind names
          return_host connection_id
        ≡ ok a
      → (scopes_for (get_provider provider) names ≡ ok a.scopes)
        × (a.state ≡ sign_payload codec now payload state_ttl_seconds)
  unfolding build_authorization_url
  authorization-signed {a} h =
      elim (Result-cases (validate_capabilities (get_provider provider) names)) [
        | inr (e, refused) ↦ absurd (ground arith)
        | inl (chosen, valid) ↦ elim (Bool-cases (configured provider)) [
          | inr missing ↦ absurd (ground arith)
          | inl set ↦ signed-ok (scopes_for (get_provider provider) names) (ground arith)
        ]
      ]

  -- The state of an authorization that was built is read back by the callback of the same provider
  -- until ten minutes have passed: with the tenant, the user, the kind, the capabilities, the checked
  -- host and the connection that it was built for. The callback of the other provider refuses it, and
  -- after ten minutes both do. The scopes that the authorization asks for, and any scopes that include
  -- them, grant each of the capabilities. The text of the payload and its expiry is read back by the codec.
  pub build-parse_state :
      (later : ℕ) (expected : ConnectorProvider) (granted : List String) {a : Authorization}
      → ReadsBack codec payload (now + state_ttl_seconds)
      → build_authorization_url codec apex configured now provider tenant_slug user_id kind names
          return_host connection_id
        ≡ ok a
      → Covered granted a.scopes
      → (parse_state codec apex configured later a.state expected ≡ (
          if ltb (now + state_ttl_seconds) later
          then err invalid_state
          else (if same_provider provider expected
              then ok (payload, tenant_slug, names)
              else err other_provider)))
        × All
            (λ name. contains (granted_capabilities (get_provider provider) granted) name ≡ true)
            names
  build-parse_state later expected granted {a} law built covered =
      let (asked, state) = authorization-signed built in
      (
        rw state (parse_state-signed later expected law),
        granted_capabilities-scopes_for (get_provider provider) names granted asked covered,
      )
