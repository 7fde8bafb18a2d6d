-- ===== src/Connectors/Webhooks/Authentic.antt =====
-- apps/api/app/connectors/webhooks.py: what an event in the queue says of the request that caused it.
use blank.Prelude.{
  ℕ, ◌≡◌, refl, ◌⊎◌, subst, inl, inr, Bool, true, false, ◌&&◌, ◌||◌, Option, none, some, List, [],
  ◌∷◌, String, str_eq, arith, ◌==◌, or_default, Bool-cases, Option-cases, eq_iff,
}
use blank.Prelude.Table.{All, Among, Among-select, All-weaken, find, get, select}
use blank.Core.Config.{Env}
use blank.Tenancy.Models.{Tenant}
use blank.Connectors.Models.{
  ConnectorProvider, google, microsoft, ConnectorSubscription, WebhookRoute,
}
use blank.Connectors.Webhooks.{
  Notification, Body, unreadable, notifications, WebhookRequest, Validated, EnqueuedEvent,
  WebhookResponse, echo, neutral, server_error, subscription_by_id, knows_secret, graph_validated,
  graph_notifications, graph_body, truthy, channel_validated, validated_notifications, enqueued,
  is_served, for_tenant, for_route, is_route, answered, receive_webhook, secret_raises, items_raise,
  hash_raises, publish, validated_or_raised, published,
}

module _ (env : Env) where
  abbrev shows_one : Option Notification → ConnectorSubscription → Bool
  shows_one none s = false
  shows_one (some n) s =
      str_eq n.subscription_id s.provider_subscription_id && knows_secret env n.client_state s

  abbrev shows_any : List (Option Notification) → ConnectorSubscription → Bool
  shows_any [] s = false
  shows_any (n ∷ items) s = shows_one n s || shows_any items s

  abbrev shows_in_body : Body → ConnectorSubscription → Bool
  shows_in_body unreadable s = false
  shows_in_body (notifications items) s = shows_any items s

  -- The request shows the secret of the subscription, with its identifier: in an item of the body,
  -- or in the headers of the channel.
  abbrev pub shows_secret : ConnectorProvider → WebhookRequest → ConnectorSubscription → Bool
  shows_secret microsoft req s = shows_in_body req.body s
  shows_secret google req s =
      str_eq (or_default req.channel_id "") s.provider_subscription_id
      && knows_secret env (truthy env req.channel_token) s

  subscription_by_id-Among :
      (key : String) (rows : List ConnectorSubscription) {s : ConnectorSubscription}
      → subscription_by_id key rows ≡ some s
      → Among s rows × (str_eq s.provider_subscription_id key ≡ true)
  unfolding subscription_by_id
  subscription_by_id-Among key [] e = cc
  subscription_by_id-Among key (x ∷ xs) {s} e = elim (Option-cases (subscription_by_id key xs)) [
    | inr (later, found) ↦
        let same : later ≡ s = ground arith in
        let (a, k) =
          subst
            (λ (y : ConnectorSubscription).
              Among y xs × (str_eq y.provider_subscription_id key ≡ true))
            same (subscription_by_id-Among key xs found) in
        (inr a, k)
    | inl no_later ↦ elim (Bool-cases (str_eq x.provider_subscription_id key)) [
      | inl here ↦ let same : x ≡ s = ground arith in (inl same, rw (← same) here)
      | inr other ↦ absurd (ground arith)
    ]
  ]

  -- A validated notification is of a subscription among the rows, whose secret the request shows.
  abbrev IsValid :
      ConnectorProvider → WebhookRequest → List ConnectorSubscription → Validated → Type 0
  IsValid provider req rows (s, change_type, resource_id) =
      Among s rows × (shows_secret provider req s ≡ true)

  abbrev IsShownBy : List (Option Notification) → List ConnectorSubscription → Validated → Type 0
  IsShownBy items rows (s, change_type, resource_id) = Among s rows × (shows_any items s ≡ true)

  graph_validated-All :
      (P : Validated → Type 0) (n : Notification) (o : Option ConnectorSubscription)
      (rest : List Validated)
      → ((s : ConnectorSubscription) (v : String × Option String)
          → o ≡ some s
          → knows_secret env n.client_state s ≡ true
          → P (s, v.0, v.1))
      → All P rest
      → All P (graph_validated env n o rest)
  unfolding graph_validated
  graph_validated-All P n none rest w h = h
  graph_validated-All P n (some s) rest w h =
      elim (Bool-cases (knows_secret env n.client_state s)) [
        | inl known ↦
            rw known (w s (or_default n.change_type "updated", n.resource_id) refl known, h)
        | inr unknown ↦ rw unknown h
      ]

  graph_notifications-IsShownBy :
      (rows : List ConnectorSubscription) (items : List (Option Notification))
      → All (IsShownBy items rows) (graph_notifications env rows items)
  unfolding graph_notifications
  graph_notifications-IsShownBy rows [] = tt
  graph_notifications-IsShownBy rows (none ∷ items) = graph_notifications-IsShownBy rows items
  graph_notifications-IsShownBy rows (some n ∷ items) =
      let rest : All (IsShownBy (some n ∷ items) rows) (graph_notifications env rows items) =
        All-weaken (graph_notifications env rows items) (λ v h. (h.0, ground arith))
          (graph_notifications-IsShownBy rows items) in
      graph_validated-All (IsShownBy (some n ∷ items) rows) n
        (subscription_by_id n.subscription_id rows) (graph_notifications env rows items)
        (λ s v found known.
          let (a, k) = subscription_by_id-Among n.subscription_id rows found in
          (
            a,
            ground (
              arith,
              eq_iff s.provider_subscription_id n.subscription_id,
              eq_iff n.subscription_id s.provider_subscription_id,
            ),
          ))
        rest

  channel_validated-IsValid :
      (req : WebhookRequest) (rows : List ConnectorSubscription) (o : Option ConnectorSubscription)
      → ((s : ConnectorSubscription)
          → o ≡ some s
          → Among s rows
            × (str_eq s.provider_subscription_id (or_default req.channel_id "") ≡ true))
      → All (IsValid google req rows) (channel_validated env req o)
  unfolding channel_validated
  channel_validated-IsValid req rows none w = tt
  channel_validated-IsValid req rows (some s) w =
      elim (Bool-cases (knows_secret env (truthy env req.channel_token) s)) [
        | inr unknown ↦ rw unknown tt
        | inl known ↦ elim (Bool-cases (str_eq (or_default req.resource_state "") "sync")) [
          | inl sync ↦ rw (known, sync) tt
          | inr event ↦
              let (a, k) = w s refl in
              let shown : shows_secret google req s ≡ true = ground (
                arith,
                eq_iff s.provider_subscription_id (or_default req.channel_id ""),
                eq_iff (or_default req.channel_id "") s.provider_subscription_id,
              ) in
              rw (known, event) ((a, shown), tt)
        ]
      ]

  graph_body-IsValid :
      (rows : List ConnectorSubscription) (body : Body)
      → All (λ v. Among v.0 rows × (shows_in_body body v.0 ≡ true)) (graph_body env rows body)
  unfolding graph_body
  graph_body-IsValid rows unreadable = tt
  graph_body-IsValid rows (notifications items) = graph_notifications-IsShownBy rows items

  validated_notifications-IsValid :
      (table : List ConnectorSubscription) (provider : ConnectorProvider) (connection_id : ℕ)
      (req : WebhookRequest)
      → All
          (IsValid provider req (select (λ s. s.connection_id == connection_id) table))
          (validated_notifications env table provider connection_id req)
  unfolding validated_notifications
  validated_notifications-IsValid table microsoft connection_id req =
      graph_body-IsValid (select (λ s. s.connection_id == connection_id) table) req.body
  validated_notifications-IsValid table google connection_id req =
      let rows = select (λ (s : ConnectorSubscription). s.connection_id == connection_id) table in
      let key = or_default req.channel_id "" in
      channel_validated-IsValid req rows (subscription_by_id key rows)
        (λ s found. subscription_by_id-Among key rows found)

  module _ (routes : List WebhookRoute) (tenants : List Tenant)
      (subscriptions : ℕ → List ConnectorSubscription) (encodes : String → Bool)
      (accepts : EnqueuedEvent → Bool) where
    -- An event of a route for the provider and its tenant, which is served; and of a subscription of
    -- the route's connection, in the tenant's database, whose secret the request shows.
    abbrev pub IsAuthentic : ConnectorProvider → String → WebhookRequest → EnqueuedEvent → Type 0
    IsAuthentic provider route_key req ev =
        (route : WebhookRoute) × (tenant : Tenant) × (s : ConnectorSubscription) × (find
            (is_route env routes tenants subscriptions encodes accepts route_key provider) routes
          ≡ some route)
        × (get (λ t. t.id) route.tenant_id tenants ≡ some tenant)
        × (is_served env routes tenants subscriptions encodes accepts tenant ≡ true)
        × (ev.slug ≡ tenant.slug)
        × (ev.connection_id ≡ route.connection_id)
        × (ev.provider ≡ provider)
        × (ev.capability ≡ s.capability)
        × Among s (subscriptions tenant.id)
        × ((s.connection_id == route.connection_id) ≡ true)
        × (shows_secret provider req s ≡ true)

    enqueued-All :
        (P : EnqueuedEvent → Type 0) (tenant : Tenant) (route : WebhookRoute)
        (provider : ConnectorProvider) (vs : List Validated)
        → All
            (λ v. P (record {
              slug = tenant.slug;
              connection_id = route.connection_id;
              provider = provider;
              capability = v.0.capability;
              change_type = v.1;
              resource_id = v.2;
            }))
            vs
        → All P (enqueued env tenant route provider vs)
    unfolding enqueued
    enqueued-All P tenant route provider [] h = tt
    enqueued-All P tenant route provider (v ∷ vs) (q, h) =
        (q, enqueued-All P tenant route provider vs h)

    -- An exception has a reason: a text without an encoding, or an event that the queue refuses.
    abbrev pub HasFailed : Type 0
    HasFailed =
        ((text : String) × (encodes text ≡ false))
        ⊎ ((event : EnqueuedEvent) × (accepts event ≡ false))

    -- Without the handshake, the neutral answer or an exception; with it, the echo.
    abbrev pub AnswersTo : Option String → WebhookResponse → List EnqueuedEvent → Type 0
    AnswersTo none answer events = (answer ≡ neutral) ⊎ (answer ≡ server_error) × HasFailed
    AnswersTo (some token) answer events = (answer ≡ echo token) × (events ≡ [])

    abbrev Sound : (EnqueuedEvent → Type 0) → WebhookResponse × List EnqueuedEvent → Type 0
    Sound P out = All P out.1 × AnswersTo none out.0 out.1

    publish-Sound :
        (P : EnqueuedEvent → Type 0) (events : List EnqueuedEvent)
        → All P events
        → Sound P (publish env routes tenants subscriptions encodes accepts events)
    unfolding publish
    publish-Sound P [] h = (tt, inl refl)
    publish-Sound P (event ∷ events) (q, h) =
        let (all, answer) = publish-Sound P events h in
        elim (Bool-cases (accepts event)) [
          | inl taken ↦ rw taken ((q, all), answer)
          | inr refused ↦ rw refused (tt, inr (refl, inr (event, refused)))
        ]

    secret_raises-text :
        (secret : Option String) (o : Option ConnectorSubscription)
        → secret_raises encodes secret o ≡ true
        → (text : String) × (encodes text ≡ false)
    unfolding secret_raises
    secret_raises-text none o h = absurd (ground arith)
    secret_raises-text (some secret) none h = absurd (ground arith)
    secret_raises-text (some secret) (some s) h = (secret, ground arith)

    items_raise-text :
        (rows : List ConnectorSubscription) (items : List (Option Notification))
        → items_raise encodes rows items ≡ true
        → (text : String) × (encodes text ≡ false)
    unfolding items_raise
    items_raise-text rows [] h = absurd (ground arith)
    items_raise-text rows (none ∷ items) h = items_raise-text rows items h
    items_raise-text rows (some n ∷ items) h =
        elim (Bool-cases
          (secret_raises encodes n.client_state (subscription_by_id n.subscription_id rows))) [
            | inl here ↦ secret_raises-text n.client_state _ here
            | inr later ↦ items_raise-text rows items (ground arith)
          ]

    hash_raises-text :
        (rows : List ConnectorSubscription) (provider : ConnectorProvider) (body : Body)
        → hash_raises encodes rows provider body ≡ true
        → (text : String) × (encodes text ≡ false)
    unfolding hash_raises
    hash_raises-text rows google body h = absurd (ground arith)
    hash_raises-text rows microsoft unreadable h = absurd (ground arith)
    hash_raises-text rows microsoft (notifications items) h = items_raise-text rows items h

    published-Sound :
        (P : EnqueuedEvent → Type 0) (tenant : Tenant) (route : WebhookRoute)
        (provider : ConnectorProvider) (req : WebhookRequest)
        → All P (
            enqueued env tenant route provider (
              validated_notifications env
                (subscriptions tenant.id)
                provider
                route.connection_id
                req))
        → Sound P (
            published env routes tenants subscriptions encodes accepts tenant route provider (
              validated_or_raised env routes tenants subscriptions encodes accepts
                (subscriptions tenant.id)
                provider
                route.connection_id
                req))
    unfolding published validated_or_raised
    published-Sound P tenant route provider req h =
        let rows =
          select (λ (s : ConnectorSubscription). s.connection_id == route.connection_id)
            (subscriptions tenant.id) in
        elim (Bool-cases (hash_raises encodes rows provider req.body)) [
          | inl raised ↦
              rw raised (tt, inr (refl, inl (hash_raises-text rows provider req.body raised)))
          | inr quiet ↦ rw quiet (publish-Sound P _ h)
        ]

    for_route-Sound :
        (provider : ConnectorProvider) (route_key : String) (req : WebhookRequest)
        (o : Option WebhookRoute)
        → find (is_route env routes tenants subscriptions encodes accepts route_key provider) routes
          ≡ o
        → Sound
            (IsAuthentic provider route_key req)
            (for_route env routes tenants subscriptions encodes accepts provider req o)
    unfolding for_route for_tenant
    for_route-Sound provider route_key req none found = (tt, inl refl)
    for_route-Sound provider route_key req (some route) found =
        elim (Option-cases (get (λ t. t.id) route.tenant_id tenants)) [
          | inl no_tenant ↦ rw no_tenant (tt, inl refl)
          | inr (tenant, known) ↦
              elim (Bool-cases
                (is_served env routes tenants subscriptions encodes accepts tenant)) [
                  | inr not_served ↦ rw (known, not_served) (tt, inl refl)
                  | inl served ↦
                      let table = subscriptions tenant.id in
                      let vs = validated_notifications env table provider route.connection_id req in
                      let authentic =
                        enqueued-All (IsAuthentic provider route_key req) tenant route provider vs (
                          All-weaken vs
                            (λ v h.
                              let (a, mine) =
                                Among-select
                                  (λ (s : ConnectorSubscription).
                                    s.connection_id == route.connection_id)
                                  table v.0 h.0 in
                              (
                                route, tenant, v.0, found, known, served, refl, refl, refl, refl, a,
                                mine, h.1,
                              ))
                            (validated_notifications-IsValid table provider route.connection_id
                              req)) in
                      let sound =
                        published-Sound (IsAuthentic provider route_key req) tenant route provider
                          req authentic in
                      rw (known, served) sound
                ]
        ]

    answered-Sound :
        (P : EnqueuedEvent → Type 0) (o : Option String)
        (out : WebhookResponse × List EnqueuedEvent)
        → Sound P out
        → let (answer, given) = answered env routes tenants subscriptions encodes accepts o out in
          All P given × AnswersTo o answer given
    unfolding answered
    answered-Sound P none out h = h
    answered-Sound P (some token) out h = (tt, (refl, refl))

    pub receive_webhook-IsAuthentic :
        (provider : ConnectorProvider) (route_key : String) (req : WebhookRequest)
        → let (answer, events) =
            receive_webhook env routes tenants subscriptions encodes accepts provider route_key
              req in
          All (IsAuthentic provider route_key req) events
          × AnswersTo req.validation_token answer events
    unfolding receive_webhook
    receive_webhook-IsAuthentic provider route_key req =
        answered-Sound (IsAuthentic provider route_key req) req.validation_token
          (for_route env routes tenants subscriptions encodes accepts provider req (
            find (is_route env routes tenants subscriptions encodes accepts route_key provider)
              routes))
          (for_route-Sound provider route_key req _ refl)
