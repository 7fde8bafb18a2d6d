-- ===== src/Connectors/Subscriptions/Converges.antt =====
-- apps/api/app/connectors/subscriptions.py: the subscriptions after a run.
use blank.Prelude.{
  ℕ, ◌≡◌, refl, sym, subst, inl, inr, Bool, true, false, not, ◌||◌, Option, none, some, List, [],
  ◌∷◌, ◌++◌, String, str_eq, arith, eq_iff, Bool-cases,
}
use mathlib.Core.List.{append_assoc}
use blank.Prelude.Text.{str_eq_refl}
use blank.Prelude.Table.{All}
use blank.Connectors.Models.{
  ConnectorProvider, google, microsoft, ConnectorConnection, ConnectorSubscription,
}
use blank.Connectors.Registry.{
  capability_mail, capability_calendar, granted_capabilities, get_provider, capabilities, names,
}
use blank.Connectors.Registry.Granted.{granted_capabilities-All}
use blank.Connectors.Subscriptions.{
  Created, SubscriptionState, is_watchable, watched_capability, has_subscription, added,
  create_subscription, then_rest, ensure_each, ensure_subscriptions,
}

-- A capability that Google's manifest does not have is not granted; but for mail, it is the calendar.
abbrev IsKnown : String → Type 0
IsKnown capability =
    str_eq capability capability_mail || str_eq capability capability_calendar ≡ true

module _ {S : Type 0} (create : ConnectorProvider → String → S → Option Created × S)
    (new_id : String → ℕ) (secret_hash : String → String) (c : ConnectorConnection) where
  -- The capability is covered: it cannot be watched, or has a subscription.
  abbrev pub IsCovered : List ConnectorSubscription → String → Type 0
  IsCovered rows capability =
      (has_subscription c.tokens.id capability rows || not (is_watchable c.provider capability))
      ≡ true

  -- The rows are those of before, as they were, behind the new ones.
  abbrev pub Extends : List ConnectorSubscription → List ConnectorSubscription → Type 0
  Extends rows rows' = (made : List ConnectorSubscription) × (rows' ≡ made ++ rows)

  Extends-trans :
      (rows rows' rows'' : List ConnectorSubscription)
      → Extends rows rows'
      → Extends rows' rows''
      → Extends rows rows''
  Extends-trans rows rows' rows'' (made, e) (more, f) =
      (more ++ made, rw (f, e, append_assoc more made rows) refl)

  has_subscription-append :
      (capability : String) (made rows : List ConnectorSubscription)
      → has_subscription c.tokens.id capability rows ≡ true
      → has_subscription c.tokens.id capability (made ++ rows) ≡ true
  has_subscription-append capability [] rows h = h
  has_subscription-append capability (r ∷ made) rows h =
      ground (arith, has_subscription-append capability made rows h)

  watched :
      (capability : String)
      → IsKnown capability
      → (p : ConnectorProvider) → is_watchable p capability ≡ true
      → str_eq (watched_capability p capability) capability ≡ true
  watched capability known google w =
      ground (arith, eq_iff capability capability_calendar, eq_iff capability_calendar capability)
  watched capability known microsoft w = str_eq_refl capability

  -- A creation that succeeds covers the capability, and none loses a row.
  abbrev Creates : String → SubscriptionState S → Bool × SubscriptionState S → Type 0
  Creates capability s (done, s') =
      (done ≡ true → IsCovered s'.subscriptions capability)
      × Extends s.subscriptions s'.subscriptions

  added-Creates :
      (capability : String) (answer : Option Created) (s : SubscriptionState S)
      → IsKnown capability
      → is_watchable c.provider capability ≡ true
      → Creates capability s (added create new_id secret_hash c capability answer s)
  unfolding added
  added-Creates capability none s known w = (λ done. cc, ([], refl))
  added-Creates capability (some answer) s known w =
      let same = watched capability known c.provider w in (λ done. ground arith, (_ ∷ [], refl))

  create_subscription-Creates :
      (capability : String) (s : SubscriptionState S)
      → IsKnown capability
      → is_watchable c.provider capability ≡ true
      → Creates capability s (create_subscription create new_id secret_hash c capability s)
  unfolding create_subscription
  create_subscription-Creates capability s known w =
      let (answer, network) = create c.provider capability s.network in
      added-Creates capability answer (record s { network = network }) known w

  abbrev CoversAll : List String → SubscriptionState S → Bool × SubscriptionState S → Type 0
  CoversAll names s (done, s') =
      (done ≡ true → All (IsCovered s'.subscriptions) names)
      × Extends s.subscriptions s'.subscriptions

  IsCovered-Extends :
      (rows rows' : List ConnectorSubscription) (capability : String)
      → Extends rows rows'
      → IsCovered rows capability
      → IsCovered rows' capability
  IsCovered-Extends rows rows' capability (made, e) h =
      rw e (ground (arith, has_subscription-append capability made rows))

  then_rest-CoversAll :
      (capability : String) (names : List String) (s : SubscriptionState S)
      (rest : SubscriptionState S → Bool × SubscriptionState S) (first : Bool × SubscriptionState S)
      → Creates capability s first
      → ((t : SubscriptionState S)
          → Extends s.subscriptions t.subscriptions
          → CoversAll names t (rest t))
      → CoversAll (capability ∷ names) s (then_rest create new_id secret_hash rest first)
  unfolding then_rest
  then_rest-CoversAll capability names s rest (false, t) (made, more) later = (λ done. cc, more)
  then_rest-CoversAll capability names s rest (true, t) (made, more) later =
      let (all, further) = later t more in
      (
        λ done. (
          IsCovered-Extends t.subscriptions (rest t).1.subscriptions capability further (made refl),
          all done,
        ),
        Extends-trans s.subscriptions t.subscriptions (rest t).1.subscriptions more further,
      )

  ensure_each-CoversAll :
      (existing : List ConnectorSubscription) (names : List String) (s : SubscriptionState S)
      → All IsKnown names
      → Extends existing s.subscriptions
      → CoversAll names s (ensure_each create new_id secret_hash c existing names s)
  unfolding ensure_each
  ensure_each-CoversAll existing [] s known e = (λ done. tt, ([], refl))
  ensure_each-CoversAll existing (capability ∷ names) s (k, known) e =
      let rest = ensure_each create new_id secret_hash c existing names in
      elim (Bool-cases (
        has_subscription c.tokens.id capability existing
        || not (is_watchable c.provider capability))) [
          | inl there ↦
              let (all, further) = ensure_each-CoversAll existing names s known e in
              let covered =
                IsCovered-Extends existing (rest s).1.subscriptions capability
                  (Extends-trans existing s.subscriptions (rest s).1.subscriptions e further)
                  there in
              let both : CoversAll (capability ∷ names) s (rest s) =
                (λ done. (covered, all done), further) in
              let same : ensure_each create new_id secret_hash c existing (capability ∷ names) s
                  ≡ rest s =
                rw there refl in
              subst (λ (out : Bool × SubscriptionState S). CoversAll (capability ∷ names) s out)
                (sym same) both
          | inr missing ↦
              let w : is_watchable c.provider capability ≡ true = ground arith in
              let made = create_subscription-Creates capability s k w in
              let both =
                then_rest-CoversAll capability names s rest
                  (create_subscription create new_id secret_hash c capability s) made
                  (λ t more.
                    ensure_each-CoversAll existing names t known
                      (Extends-trans existing s.subscriptions t.subscriptions e more)) in
              let same : ensure_each create new_id secret_hash c existing (capability ∷ names) s
                  ≡ then_rest create new_id secret_hash rest
                      (create_subscription create new_id secret_hash c capability s) =
                rw missing refl in
              subst (λ (out : Bool × SubscriptionState S). CoversAll (capability ∷ names) s out)
                (sym same) both
        ]

  -- A run that starts from rows that already cover the capabilities creates nothing.
  ensure_each-settled :
      (existing : List ConnectorSubscription) (names : List String) (s : SubscriptionState S)
      → All (IsCovered existing) names
      → ensure_each create new_id secret_hash c existing names s ≡ (true, s)
  unfolding ensure_each
  ensure_each-settled existing [] s h = refl
  ensure_each-settled existing (capability ∷ names) s (covered, h) =
      rw covered (ensure_each-settled existing names s h)

  capabilities-IsKnown : (p : ConnectorProvider) → All IsKnown (capabilities (get_provider p))
  unfolding capabilities names
  capabilities-IsKnown google = (refl, (refl, tt))
  capabilities-IsKnown microsoft = (refl, (refl, tt))

  granted-IsKnown : All IsKnown (granted_capabilities (get_provider c.provider) c.scopes)
  granted-IsKnown =
      granted_capabilities-All IsKnown (get_provider c.provider) c.scopes
        (capabilities-IsKnown c.provider)

  -- A run without an exception leaves a subscription for each capability that the connection grants and
  -- the provider can notify of. The subscriptions of before stay as they are, even where it ends with
  -- an exception; and after a run without one, another run calls no provider and changes nothing.
  pub ensure_subscriptions-converges :
      (s : SubscriptionState S)
      → let (done, s') = ensure_subscriptions create new_id secret_hash c s in
        Extends s.subscriptions s'.subscriptions
        × (done ≡ true
            → All
                (IsCovered s'.subscriptions)
                (granted_capabilities (get_provider c.provider) c.scopes)
              × (ensure_subscriptions create new_id secret_hash c s' ≡ (true, s')))
  unfolding ensure_subscriptions
  ensure_subscriptions-converges s =
      let names = granted_capabilities (get_provider c.provider) c.scopes in
      let (all, further) =
        ensure_each-CoversAll s.subscriptions names s granted-IsKnown ([], refl) in
      let s' = (ensure_each create new_id secret_hash c s.subscriptions names s).1 in
      (further, λ done. (all done, ensure_each-settled s'.subscriptions names s' (all done)))
