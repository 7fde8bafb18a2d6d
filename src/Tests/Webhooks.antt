-- ===== src/Tests/Webhooks.antt =====
-- The theorems on webhooks and their events at a notification of Microsoft.
use blank.Prelude.{ℕ, ◌+◌, ◌≡◌, refl, inl, inr, Bool, true, none, some, List, [], ◌∷◌, String}
use blank.Prelude.Table.{All}
use blank.Connectors.Models.{ConnectorSubscription, WebhookRoute, microsoft}
use blank.Connectors.Webhooks.{
  Notification, WebhookRequest, notifications, receive_webhook, EnqueuedEvent,
}
use blank.Connectors.Events.{ConnectorEvent, EventState}
use blank.Connectors.Events.Local.{SlugsAreUnique, IsProcessedFor, receive_webhook-IsProcessedFor}
use blank.Tests.{env, acme}

abbrev route : WebhookRoute
route = record { id = 1; route_key = "k"; provider = microsoft; tenant_id = 1; connection_id = 3 }

abbrev subscription : ConnectorSubscription
subscription = record {
  id = 2;
  connection_id = 3;
  capability = "mail";
  provider_subscription_id = "s";
  resource = "/me/messages";
  expires_at = 100;
  client_state_hash = "secret";
  resource_id = none;
}

abbrev note : Notification
note = record {
  subscription_id = "s";
  client_state = some "secret";
  change_type = some "created";
  resource_id = some "m1";
}

abbrev posted : WebhookRequest
posted = record {
  validation_token = none;
  body = notifications (none ∷ some note ∷ []);
  channel_id = none;
  channel_token = none;
  resource_state = none;
  channel_resource_id = none;
}

abbrev rows : ℕ → List ConnectorSubscription
rows tenant_id = subscription ∷ []

abbrev all_encode : String → Bool
all_encode text = true

abbrev all_accept : EnqueuedEvent → Bool
all_accept event = true

-- A handler that counts its calls.
abbrev counting : ℕ → ℕ → ConnectorEvent → EventState ℕ → Bool × EventState ℕ
counting tenant_id h event s = (true, record s { world = h + s.world })

abbrev handlers : List (String × List ℕ)
handlers = ("mail", 1 ∷ []) ∷ []

abbrev json : EnqueuedEvent → String
json job = "{}"

acme_unique : SlugsAreUnique (acme ∷ [])
acme_unique a b (inl p) (inl q) same = cc
acme_unique a b (inl p) (inr q) same = absurd q
acme_unique a b (inr p) q same = absurd p

receive_webhook-IsProcessedFor_example :
    All
      (λ job.
        IsProcessedFor counting (acme ∷ []) handlers json (λ id. "3") 1 job
        × (job.connection_id ≡ 3))
      (receive_webhook env
        (route ∷ [])
        (acme ∷ [])
        rows
        all_encode
        all_accept
        microsoft
        "k"
        posted).1
receive_webhook-IsProcessedFor_example =
    receive_webhook-IsProcessedFor counting (acme ∷ []) handlers json (λ id. "3") env (route ∷ [])
      rows all_encode all_accept (λ t h event s i other. refl) acme_unique microsoft "k" posted
      route refl
