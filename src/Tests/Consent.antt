-- ===== src/Tests/Consent.antt =====
-- The theorems on consents at a first connection of an account at Google.
use blank.Prelude.{
  ℕ, ◌+◌, ◌≡◌, refl, Bool, true, false, Option, none, some, List, [], ◌∷◌, String, arith, ltb,
  if◌then◌else◌, ok, err,
}
use blank.Prelude.Text.{contains}
use blank.Prelude.Table.{All}
use blank.Auth.SignedPayload.{Codec, ReadsBack, sign_payload}
use blank.Connectors.Tokens.{TokenBundle, TokenResponse, Utf8}
use blank.Connectors.Models.{ConnectorProvider, google, same_provider, tenant_kind}
use blank.Connectors.Registry.{
  capabilities, names, extend, extended, scopes_from, scopes_for, granted_capabilities,
  google_manifest,
}
use blank.Connectors.Consent.{
  before_colon, same_text, ends_with, validate_return_host, signed, all_among,
  validate_capabilities, StatePayload, Authorization, build_authorization_url, parse_state,
  invalid_state, other_provider, state_ttl_seconds,
}
use blank.Connectors.Consent.RoundTrip.{payload, build-parse_state}
use blank.Connectors.Callback.{CallbackState, Fresh, connector_oauth_callback}
use blank.Connectors.Upsert.{Consent, existing_connection, upsert_connection}
use blank.Connectors.Upsert.Rows.{IsStored, upsert_connection-IsStored}
use blank.Connectors.Callback.Outcome.{Concludes, connector_oauth_callback-Concludes}
use blank.Tests.{kp, acme}

abbrev utf8 : Utf8
utf8 = record { encode = λ s. 97 ∷ []; decode = λ bytes. "a" }

abbrev bundle : TokenBundle
bundle = record { access_token = "a"; expires_in = 3600; refresh_token = some "r" }

abbrev consent : Consent
consent = record {
  new_id = 3;
  now = 7;
  provider = google;
  kind = tenant_kind;
  user_id = none;
  account_label = "ann@x";
  scopes = "openid" ∷ [];
  bundle = bundle;
  connection_id = none;
}

upsert_connection-IsStored_example :
    IsStored kp utf8 consent []
      (existing_connection consent [])
      (upsert_connection kp utf8 consent [])
upsert_connection-IsStored_example = upsert_connection-IsStored kp utf8 consent []

abbrev asked : StatePayload
asked = record {
  p = some "google";
  t = some "acme";
  u = some 10;
  k = some tenant_kind;
  c = some ("mail" ∷ []);
  r = 97 ∷ [];
  cid = none;
}

-- A codec that knows one payload, which expires at 600.
abbrev codec : Codec StatePayload
codec = record {
  encode = λ data_ exp. 1 ∷ [];
  decode = λ text. some (asked, some 600);
  signature = λ text. 2 ∷ [];
}

codec-ReadsBack : ReadsBack codec asked 600
codec-ReadsBack = record {
  decode-encode = refl;
  encode_dotless = ((λ e. absurd (omega arith)), tt);
  encode_nonempty = λ e. cc;
  signature_nonempty = λ e. cc;
}

abbrev apex : List ℕ
apex = 97 ∷ []

abbrev set_up : ConnectorProvider → Bool
set_up p = true

abbrev scopes : List String
scopes =
    "openid" ∷ "email" ∷ "https://www.googleapis.com/auth/gmail.readonly"
    ∷ "https://www.googleapis.com/auth/gmail.send" ∷ []

abbrev authorization : Authorization
authorization = record { scopes = scopes; state = 1 ∷ 46 ∷ 2 ∷ [] }

build-parse_state_example :
    (parse_state codec apex set_up 500 authorization.state google ≡ (
      if ltb (0 + state_ttl_seconds) 500
      then err invalid_state
      else (if same_provider google google
          then ok (
            payload codec apex set_up 0 google "acme" 10 tenant_kind ("mail" ∷ []) apex none,
            "acme",
            "mail" ∷ [],
          )
          else err other_provider)))
    × All (λ name. contains (granted_capabilities google_manifest scopes) name ≡ true) ("mail" ∷ [])
unfolding before_colon same_text ends_with validate_return_host signed all_among
    validate_capabilities build_authorization_url capabilities names extend extended scopes_from
    scopes_for sign_payload
build-parse_state_example =
    build-parse_state codec apex set_up 0 google "acme" 10 tenant_kind ("mail" ∷ []) apex none 500
      google scopes codec-ReadsBack refl (ground arith)

abbrev answered : String → Option (TokenResponse × List String)
answered code = some (
  record {
    status_code = 200;
    error = "";
    is_object = true;
    access_token = some "a";
    refresh_token = some "r";
    expires_in = some (some 3600);
  },
  scopes,
)

abbrev labelled : String → Option (Option String)
labelled code = some (some "ann@x")

abbrev fresh : Fresh
fresh = record {
  connection_id = 3;
  route_id = 4;
  route_key = "k";
  audit_id = 90;
  now = 7;
  tenant_commits = true;
  control_commits = true;
  queue_accepts = false;
}

abbrev nothing : CallbackState
nothing = record { tables = λ i. record { connections = []; audit = [] }; routes = []; jobs = [] }

connector_oauth_callback-Concludes_example :
    Concludes kp utf8 codec apex set_up
      (acme ∷ [])
      answered
      labelled
      (λ id. "3")
      (λ p label kind names. "{}")
      500
      google
      authorization.state
      (some "c")
      nothing
      (connector_oauth_callback kp utf8 codec apex set_up
        (acme ∷ [])
        answered
        labelled
        (λ id. "3")
        (λ p label kind names. "{}")
        fresh
        500
        google
        authorization.state
        (some "c")
        none
        nothing)
connector_oauth_callback-Concludes_example =
    connector_oauth_callback-Concludes kp utf8 codec apex set_up (acme ∷ []) answered labelled
      (λ id. "3") (λ p label kind names. "{}") fresh 500 google authorization.state nothing
      (some "c") none
