-- ===== src/Tests/Beat.antt =====
-- The theorems on the periodic refresh and on subscriptions at one connection.
use blank.Prelude.{ℕ, ◌+◌, ◌≡◌, Bool, true, Option, none, some, [], ◌∷◌, String, err, Exec}
use blank.Prelude.Table.{All}
use blank.Connectors.Throttle.{AttemptError, response_error}
use blank.Connectors.Tokens.{Connection, TokenResponse, GrantError, Utf8, active}
use blank.Connectors.Models.{ConnectorProvider, microsoft, tenant_kind, ConnectorConnection}
use blank.Connectors.Registry.{granted_capabilities, get_provider}
use blank.Connectors.Beat.{Shared, refresh_rows}
use blank.Connectors.Beat.Reports.{Accounts, refresh_rows-Accounts}
use blank.Connectors.Subscriptions.{Created, SubscriptionState, ensure_subscriptions}
use blank.Connectors.Subscriptions.Converges.{IsCovered, Extends, ensure_subscriptions-converges}
use blank.Tests.{kp, counters, no_counts, keys, no_keys}

abbrev utf8 : Utf8
utf8 = record { encode = λ s. 97 ∷ []; decode = λ bytes. "a" }

-- A provider that is down.
abbrev down : String → Exec ℕ (AttemptError GrantError) TokenResponse
down token n = (err (response_error 503 none), n + 1)

abbrev expiring : Connection
expiring = record {
  id = 3;
  status = active;
  access_token_enc = 0 ∷ 97 ∷ [];
  refresh_token_enc = [];
  access_token_expires_at = 5;
  last_error = none;
  health_checked_at = none;
}

abbrev lasting : Connection
lasting = record expiring { id = 4; access_token_expires_at = 9000 }

abbrev side : Shared (String → ℕ × Bool) (String → Option String) ℕ
side = record {
  keys = no_keys;
  network = record { counters = no_counts; waits = []; attempts = 0; inner = 0 };
  audit = [];
}

abbrev budget : ℕ → String
budget id = "b"

abbrev lock : ℕ → String
lock id = "refresh"

abbrev token : ℕ → String
token id = "t"

refresh_rows-Accounts_example :
    Accounts kp utf8 counters keys down budget lock 60 7 100 token (lasting ∷ expiring ∷ []) (
      refresh_rows kp utf8 counters keys down budget lock 60 7 100 token
        (lasting ∷ expiring ∷ [])
        side)
refresh_rows-Accounts_example =
    refresh_rows-Accounts kp utf8 counters keys down budget lock 60 7 100 token
      (lasting ∷ expiring ∷ []) side

-- A provider that creates what is asked, and counts.
abbrev create : ConnectorProvider → String → ℕ → Option Created × ℕ
create provider capability n =
    (some (record { provider_subscription_id = "s"; expires_at = 100; resource_id = none }), n + 1)

abbrev connection : ConnectorConnection
connection = record {
  provider = microsoft;
  kind = tenant_kind;
  user_id = none;
  account_label = "ann@x";
  scopes = "Mail.Read" ∷ "Mail.Send" ∷ [];
  tokens = expiring;
}

abbrev id_of : String → ℕ
id_of capability = 1

abbrev secret_of : String → String
secret_of capability = "secret"

abbrev no_rows : SubscriptionState ℕ
no_rows = record { subscriptions = []; network = 0 }

ensure_subscriptions-converges_example :
    let (done, s') = ensure_subscriptions create id_of secret_of connection no_rows in
    Extends create id_of secret_of connection [] s'.subscriptions
    × (done ≡ true
        → All
            (IsCovered create id_of secret_of connection s'.subscriptions)
            (granted_capabilities (get_provider microsoft) connection.scopes)
          × (ensure_subscriptions create id_of secret_of connection s' ≡ (true, s')))
ensure_subscriptions-converges_example =
    ensure_subscriptions-converges create id_of secret_of connection no_rows
