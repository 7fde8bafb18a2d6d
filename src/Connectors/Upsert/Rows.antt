-- ===== src/Connectors/Upsert/Rows.antt =====
-- apps/api/app/connectors/oauth.py: the stored connection, and the routes of the webhooks.
use blank.Prelude.{
  ℕ, ◌≤◌, ◌≡◌, refl, subst, inl, inr, true, false, Option, none, some, List, [], ◌∷◌, String, arith,
  ◌==◌, is_none, is_some, Bool-cases, Option-cases,
}
use blank.Prelude.Table.{All-weaken, count, find, update}
use blank.Core.Crypto.{KeyProvider}
use blank.Connectors.Tokens.{Utf8, active, apply_token_bundle}
use blank.Connectors.Models.{ConnectorProvider, ConnectorConnection, WebhookRoute}
use blank.Connectors.Registry.{extend}
use blank.Connectors.Registry.Granted.{Covered, Covered-refl, extend-Covered, contains-extend}
use blank.Connectors.Upsert.{
  Consent, is_empty_bytes, existing_connection, with_bundle, new_connection, stored_new, stored_old,
  upsert_at, upsert_connection, ensure_webhook_route,
}

module _ (kp : KeyProvider) (utf8 : Utf8) where
  -- Where the row stands: in front, if there was none to revive; otherwise in the place of the row that
  -- it revives, whose provider, kind and user it keeps, and whose scopes it covers.
  abbrev pub Replaces :
      List ConnectorConnection
      → Option ConnectorConnection
      → ConnectorConnection
      → List ConnectorConnection
      → Type 0
  Replaces table none c table' = table' ≡ c ∷ table
  Replaces table (some old) c table' =
      (table' ≡ update (λ x. x.tokens.id) old.tokens.id (λ _. c) table)
      × Covered c.scopes old.scopes
      × (c.tokens.id ≡ old.tokens.id)
      × (c.provider ≡ old.provider)
      × (c.kind ≡ old.kind)
      × (c.user_id ≡ old.user_id)

  abbrev pub IsStored :
      Consent
      → List ConnectorConnection
      → Option ConnectorConnection
      → Option (ConnectorConnection × List ConnectorConnection)
      → Type 0
  IsStored q table old none = Unit {0}
  IsStored q table old (some (c, table')) =
      (is_empty_bytes c.tokens.refresh_token_enc ≡ false)
      × (c.tokens.status ≡ active)
      × Covered c.scopes q.scopes
      × Replaces table old c table'

  revived-Covered :
      (q : Consent) (c : ConnectorConnection) → Covered (extend c.scopes q.scopes) c.scopes
  revived-Covered q c =
      All-weaken c.scopes (λ s h. contains-extend c.scopes q.scopes s h) (Covered-refl c.scopes)

  upsert_at-IsStored :
      (q : Consent) (table : List ConnectorConnection) (old : Option ConnectorConnection)
      → IsStored q table old (upsert_at kp utf8 q table old)
  unfolding upsert_at with_bundle stored_new stored_old apply_token_bundle
  upsert_at-IsStored q table none = elim (Bool-cases (is_none q.bundle.refresh_token)) [
    | inl absent ↦ rw absent tt
    | inr given ↦
        let tokens = apply_token_bundle kp utf8 q.now q.bundle (new_connection kp utf8 q).tokens in
        elim (Bool-cases (is_empty_bytes tokens.refresh_token_enc)) [
          | inl empty ↦ rw (given, empty) tt
          | inr full ↦ rw (given, full) (full, refl, Covered-refl q.scopes, refl)
        ]
  ]
  upsert_at-IsStored q table (some c) =
      let tokens = apply_token_bundle kp utf8 q.now q.bundle c.tokens in
      elim (Bool-cases (is_empty_bytes tokens.refresh_token_enc)) [
        | inl empty ↦ rw empty tt
        | inr full ↦ rw full (
          full,
          refl,
          extend-Covered c.scopes q.scopes,
          (refl, revived-Covered q c, refl, refl, refl, refl),
        )
      ]

  -- A connection that is stored after a consent has a refresh token, is active, and has the scopes
  -- that were granted. It is a new row, or takes the place of the row that it revives, keeps that
  -- row's identifier, provider, kind and user, and has lost none of its scopes.
  pub upsert_connection-IsStored :
      (q : Consent) (table : List ConnectorConnection)
      → IsStored q table (existing_connection q table) (upsert_connection kp utf8 q table)
  unfolding upsert_connection
  upsert_connection-IsStored q table = upsert_at-IsStored q table (existing_connection q table)

-- No connection has two routes.
abbrev pub OneRoute : ℕ → List WebhookRoute → Type 0
OneRoute connection_id routes = count (λ r. r.connection_id == connection_id) routes ≤ 1

count-zero :
    (connection_id : ℕ) (routes : List WebhookRoute)
    → find (λ r. r.connection_id == connection_id) routes ≡ none
    → count (λ r. r.connection_id == connection_id) routes ≡ 0
count-zero connection_id [] e = refl
count-zero connection_id (r ∷ routes) e = ground (arith, count-zero connection_id routes)

-- After a route was asked for, the connection has one; a connection that had at most one route still
-- has, and asking again changes nothing.
pub ensure_webhook_route-once :
    (id : ℕ) (route_key : String) (tenant_id : ℕ) (provider : ConnectorProvider)
    (connection_id other : ℕ) (id' : ℕ) (route_key' : String) (routes : List WebhookRoute)
    → OneRoute other routes
    → let routes' = ensure_webhook_route id route_key tenant_id provider connection_id routes in
      (is_some (find (λ r. r.connection_id == connection_id) routes') ≡ true)
      × OneRoute other routes'
      × (ensure_webhook_route id' route_key' tenant_id provider connection_id routes' ≡ routes')
unfolding ensure_webhook_route
ensure_webhook_route-once id route_key tenant_id provider connection_id other id' route_key' routes
      one =
    elim (Option-cases (find (λ (r : WebhookRoute). r.connection_id == connection_id) routes)) [
      | inl absent ↦ elim (Bool-cases (connection_id == other)) [
        | inl same ↦
            let eq : connection_id ≡ other = ground arith in
            let zero : count (λ (r : WebhookRoute). r.connection_id == other) routes ≡ 0 =
              subst (λ (i : ℕ). count (λ (r : WebhookRoute). r.connection_id == i) routes ≡ 0) eq
                (count-zero connection_id routes absent) in
            ground (arith)
        | inr apart ↦ ground (arith)
      ]
      | inr (r, found) ↦ ground arith
    ]
