-- ===== src/Prelude/Table/Laws.antt =====
-- What a write by primary key does to counts and queries.
use Prim.Native.Nat.{ℕ, zero, suc, ◌+◌, ◌≤◌}
use mathlib.Core.Path.{◌≡◌, refl, subst}
use mathlib.Core.Logic.{◌≢◌, inl, inr}
use mathlib.Core.Bool.{Bool, true, false, not, ◌&&◌}
use mathlib.Core.Option
use mathlib.Core.Option.{none, some}
use mathlib.Core.List.{List, [], ◌∷◌, ◌++◌}
use native.Mathlib.Omega.{arith}
use blank.Prelude.Lists.{take}
use blank.Prelude.Tests.{if◌then◌else◌, is_some, Bool-cases}
use blank.Prelude.Table.Defs.{
  find, any, count, select, update_where, get, update, delete, Unique, All, Among,
}

module _ {R : Type 0} where
  -- A row that is found passes the test.
  pub find-holds : (p : R → Bool) (rs : List R) {r : R} → find p rs ≡ some r → p r ≡ true
  find-holds p [] e = cc
  find-holds p (x ∷ rs) {r} e = ground (arith, find-holds p rs {r = r})

  -- A row of a table with a smaller test is found if it is found by the larger one.
  pub find-none_weaken :
      (p q : R → Bool) (rs : List R)
      → ((r : R) → q r ≡ true → p r ≡ true)
      → find p rs ≡ none
      → find q rs ≡ none
  find-none_weaken p q [] w e = refl
  find-none_weaken p q (x ∷ rs) w e = ground (arith, w x, find-none_weaken p q rs w)

  -- A write that does not touch what the test reads is seen by the query.
  pub find-update_where :
      (p q : R → Bool) (f : R → R) (rs : List R) {r : R}
      → ((x : R) → p (f x) ≡ p x)
      → find p rs ≡ some r
      → q r ≡ true
      → find p (update_where q f rs) ≡ some (f r)
  find-update_where p q f [] same e h = cc
  find-update_where p q f (x ∷ rs) {r} same e h =
      ground (arith, same x, find-update_where p q f rs {r = r} same)

  pub find-update_where_eq :
      (p q : R → Bool) (f : R → R) (rs : List R)
      → ((x : R) → p (f x) ≡ p x)
      → find p (update_where q f rs) ≡ Option.map (λ x. if q x then f x else x) (find p rs)
  find-update_where_eq p q f [] same = refl
  find-update_where_eq p q f (x ∷ rs) same =
      ground (arith, same x, find-update_where_eq p q f rs same)

  find-none_of_count : (p : R → Bool) (rs : List R) → count p rs ≤ 0 → find p rs ≡ none
  find-none_of_count p [] h = refl
  find-none_of_count p (x ∷ rs) h = ground (arith, find-none_of_count p rs)

  pub find-select-none :
      (p q : R → Bool) (rs : List R) → find p rs ≡ none → find p (select q rs) ≡ none
  find-select-none p q [] e = refl
  find-select-none p q (x ∷ rs) e = ground (arith, find-select-none p q rs)

  -- Deleting rows hides from a query what they hide, where at most one row passes its test.
  pub find-select :
      (p q : R → Bool) (rs : List R)
      → count p rs ≤ 1
      → find p (select q rs)
        ≡ elim (find p rs) [ none ↦ none | some r ↦ if q r then some r else none ]
  find-select p q [] h = refl
  find-select p q (x ∷ rs) h =
      ground (arith, find-select p q rs, find-select-none p q rs, find-none_of_count p rs)

  -- Rows that pass a test are gone after the rows that pass it were deleted.
  pub count-select-not : (p : R → Bool) (rs : List R) → count p (select (λ r. not (p r)) rs) ≡ 0
  count-select-not p [] = refl
  count-select-not p (x ∷ rs) = ground (arith, count-select-not p rs)

  find-update_none :
      (p q : R → Bool) (f : R → R) (rs : List R)
      → ((x : R) → p (f x) ≡ false)
      → find p rs ≡ none
      → find p (update_where q f rs) ≡ none
  find-update_none p q f [] spent e = refl
  find-update_none p q f (x ∷ rs) spent e = ground (arith, spent x, find-update_none p q f rs spent)

  -- A write that spends the one row of a larger test leaves none for the query.
  pub find-update_spent :
      (p wide q : R → Bool) (f : R → R) (rs : List R) {r : R}
      → ((x : R) → p x ≡ true → wide x ≡ true)
      → ((x : R) → p (f x) ≡ false)
      → count wide rs ≤ 1
      → find p rs ≡ some r
      → q r ≡ true
      → find p (update_where q f rs) ≡ none
  find-update_spent p wide q f [] sub spent one e h = cc
  find-update_spent p wide q f (x ∷ rs) {r} sub spent one e h = ground (
    arith,
    sub x,
    spent x,
    find-none_of_count wide rs,
    find-none_weaken wide p rs sub,
    find-update_none p q f rs spent,
    find-update_spent p wide q f rs {r = r} sub spent,
  )

  pub any-false_of_find-none : (p : R → Bool) (rs : List R) → find p rs ≡ none → any p rs ≡ false
  any-false_of_find-none p [] e = refl
  any-false_of_find-none p (x ∷ rs) e = ground (arith, any-false_of_find-none p rs)

  -- A selection of a selection.
  pub select-select :
      (p q : R → Bool) (rs : List R) → select p (select q rs) ≡ select (λ r. p r && q r) rs
  select-select p q [] = refl
  select-select p q (r ∷ rs) = ground (arith, select-select p q rs)

  pub All-weaken : {P Q : R → Type 0} (rs : List R) → ((r : R) → P r → Q r) → All P rs → All Q rs
  All-weaken [] w h = tt
  All-weaken (r ∷ rs) w (p, h) = (w r p, All-weaken rs w h)

  -- What follows from two facts that hold of every row.
  pub All-both :
      {P Q T : R → Type 0} (rs : List R)
      → ((r : R) → P r → Q r → T r)
      → All P rs
      → All Q rs
      → All T rs
  All-both [] w h k = tt
  All-both (r ∷ rs) w (p, h) (q, k) = (w r p q, All-both rs w h k)

  pub All-take : (P : R → Type 0) (n : ℕ) (rs : List R) → All P rs → All P (take n rs)
  All-take P zero rs h = tt
  All-take P (suc n) [] h = tt
  All-take P (suc n) (r ∷ rs) (p, h) = (p, All-take P n rs h)

  -- The rows of a selection pass its test.
  pub select-holds : (p : R → Bool) (rs : List R) → All (λ r. p r ≡ true) (select p rs)
  select-holds p [] = tt
  select-holds p (r ∷ rs) = elim (Bool-cases (p r)) [
    | inl here ↦ rw here (here, select-holds p rs)
    | inr not_here ↦ rw not_here (select-holds p rs)
  ]

  pub Among-select :
      (p : R → Bool) (rs : List R) (r : R) → Among r (select p rs) → Among r rs × (p r ≡ true)
  Among-select p [] r h = absurd h
  Among-select p (x ∷ xs) r h = elim (Bool-cases (p x)) [
    | inl here ↦
        let h' : Among r (x ∷ select p xs) =
          subst (λ (b : Bool). Among r (if b then x ∷ select p xs else select p xs)) here h in
        elim h' [
          | inl e ↦ (inl e, subst (λ (y : R). p y ≡ true) e here)
          | inr later ↦ let (a, q) = Among-select p xs r later in (inr a, q)
        ]
    | inr there ↦
        let h' : Among r (select p xs) =
          subst (λ (b : Bool). Among r (if b then x ∷ select p xs else select p xs)) there h in
        let (a, q) = Among-select p xs r h' in (inr a, q)
  ]

  pub Among-find : (p : R → Bool) (rs : List R) {r : R} → find p rs ≡ some r → Among r rs
  Among-find p [] e = cc
  Among-find p (x ∷ xs) {r} e = elim (Bool-cases (p x)) [
    | inl here ↦ inl (ground arith)
    | inr there ↦ inr (Among-find p xs (ground arith))
  ]

  -- What holds of every row holds of each.
  pub All-among : (P : R → Type 0) (rs : List R) (r : R) → All P rs → Among r rs → P r
  All-among P [] r h a = absurd a
  All-among P (x ∷ xs) r (q, h) (inl e) = subst P e q
  All-among P (x ∷ xs) r (q, h) (inr a) = All-among P xs r h a

  pub All-append : (P : R → Type 0) (xs ys : List R) → All P xs → All P ys → All P (xs ++ ys)
  All-append P [] ys h k = k
  All-append P (x ∷ xs) ys (p, h) k = (p, All-append P xs ys h k)

  -- What holds of the rows of a selection, given that they pass the test.
  pub All-select_weaken :
      (P Q : R → Type 0) (p : R → Bool) (rs : List R)
      → ((r : R) → P r → p r ≡ true → Q r)
      → All P rs
      → All Q (select p rs)
  All-select_weaken P Q p [] w h = tt
  All-select_weaken P Q p (r ∷ rs) w (q, h) = elim (Bool-cases (p r)) [
    | inl here ↦ rw here (w r q here, All-select_weaken P Q p rs w h)
    | inr not_here ↦ rw not_here (All-select_weaken P Q p rs w h)
  ]

  pub All-everywhere : (P : R → Type 0) (rs : List R) → ((r : R) → P r) → All P rs
  All-everywhere P [] h = tt
  All-everywhere P (r ∷ rs) h = (h r, All-everywhere P rs h)

  pub find-absent :
      (p : R → Bool) (rs : List R) → is_some (find p rs) ≡ false → All (λ r. p r ≡ false) rs
  find-absent p [] h = tt
  find-absent p (r ∷ rs) h = (ground arith, find-absent p rs (ground arith))

  pub All-select : (P : R → Type 0) (p : R → Bool) (rs : List R) → All P rs → All P (select p rs)
  All-select P p [] h = tt
  All-select P p (r ∷ rs) (q, h) = elim (Bool-cases (p r)) [
    | inl here ↦ rw here (q, All-select P p rs h)
    | inr not_here ↦ rw not_here (All-select P p rs h)
  ]

module _ {R : Type 0} (key : R → ℕ) where
  pub delete_absent : (i : ℕ) (rs : List R) → get key i rs ≡ none → delete key i rs ≡ rs
  delete_absent i [] e = refl
  delete_absent i (x ∷ rs) e = ground (arith, delete_absent i rs)

  pub update_absent :
      (i : ℕ) (f : R → R) (rs : List R) → get key i rs ≡ none → update key i f rs ≡ rs
  update_absent i f [] e = refl
  update_absent i f (x ∷ rs) e = ground (arith, update_absent i f rs)

  -- A row that some query finds is in the table under its key.
  pub get-ne-none_of_find :
      (p : R → Bool) (rs : List R) {r : R} → find p rs ≡ some r → get key (key r) rs ≢ none
  get-ne-none_of_find p [] e = cc
  get-ne-none_of_find p (x ∷ rs) {r} e = ground (arith, get-ne-none_of_find p rs {r = r})

  -- The key of a row behind the head is not the head's.
  key-ne-head :
      (p : R → Bool) (x : R) (rs : List R) {r : R}
      → get key (key x) rs ≡ none
      → find p rs ≡ some r
      → key x ≢ key r
  key-ne-head p x rs {r} u e = λ same. get-ne-none_of_find p rs e (rw (← same) u)

  -- Deleting the row that a query found takes it, and nothing else, from every count.
  pub count-delete :
      (p q : R → Bool) (rs : List R) {r : R}
      → Unique key rs
      → find p rs ≡ some r
      → count q (delete key (key r) rs) + (if q r then 1 else 0) ≡ count q rs
  count-delete p q [] u e = cc
  count-delete p q (x ∷ rs) {r} (fresh, u) e = ground (
    arith,
    delete_absent (key x) rs fresh,
    key-ne-head p x rs {r = r} fresh,
    count-delete p q rs {r = r} u,
  )

  pub count-update :
      (p q : R → Bool) (f : R → R) (rs : List R) {r : R}
      → Unique key rs
      → find p rs ≡ some r
      → count q (update key (key r) f rs) + (if q r then 1 else 0)
        ≡ count q rs + (if q (f r) then 1 else 0)
  count-update p q f [] u e = cc
  count-update p q f (x ∷ rs) {r} (fresh, u) e = ground (
    arith,
    update_absent (key x) f rs fresh,
    key-ne-head p x rs {r = r} fresh,
    count-update p q f rs {r = r} u,
  )
