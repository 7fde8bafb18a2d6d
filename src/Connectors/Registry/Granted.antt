-- ===== src/Connectors/Registry/Granted.antt =====
-- apps/api/app/connectors/registry.py and capabilities.py: the scopes that are asked for grant what was
-- asked.
use blank.Prelude.{
  ◌≡◌, refl, sym, subst, inl, inr, true, some, List, [], ◌∷◌, ◌++◌, String, str_eq, arith,
  Bool-cases, Option-cases, eq_iff, ok,
}
use blank.Prelude.Text.{contains, lookup, str_eq_refl}
use blank.Prelude.Table.{All, All-weaken}
use blank.Connectors.Registry.{
  ProviderManifest, names, capabilities, extend, extended, scopes_from, scopes_for, is_superset,
  granted_among, granted_capabilities,
}

contains-append :
    (scopes more : List String) (s : String)
    → contains scopes s ≡ true
    → contains (scopes ++ more) s ≡ true
contains-append [] more s h = cc
contains-append (x ∷ scopes) more s h = ground (arith, contains-append scopes more s)

contains_last : (scopes : List String) (s : String) → contains (scopes ++ s ∷ []) s ≡ true
contains_last [] s = ground (arith, str_eq_refl s)
contains_last (x ∷ scopes) s = ground (arith, contains_last scopes s)

pub contains-extend :
    (scopes more : List String) (s : String)
    → contains scopes s ≡ true
    → contains (extend scopes more) s ≡ true
unfolding extend
contains-extend scopes [] s h = h
contains-extend scopes (x ∷ more) s h = elim (Bool-cases (contains scopes x)) [
  | inl there ↦ rw there (contains-extend scopes more s h)
  | inr new ↦
      rw new (contains-extend (scopes ++ x ∷ []) more s (contains-append scopes (x ∷ []) s h))
]

-- All the scopes are among the granted ones.
abbrev pub Covered : List String → List String → Type 0
Covered granted = All (λ s. contains granted s ≡ true)

pub extend-Covered : (scopes more : List String) → Covered (extend scopes more) more
unfolding extend
extend-Covered scopes [] = tt
extend-Covered scopes (x ∷ more) = elim (Bool-cases (contains scopes x)) [
  | inl there ↦
      let same : extend scopes (x ∷ more) ≡ extend scopes more = rw there refl in
      subst (λ (all : List String). Covered all (x ∷ more)) (sym same)
        (contains-extend scopes more x there, extend-Covered scopes more)
  | inr new ↦
      let kept = scopes ++ x ∷ [] in
      let same : extend scopes (x ∷ more) ≡ extend kept more = rw new refl in
      subst (λ (all : List String). Covered all (x ∷ more)) (sym same)
        (contains-extend kept more x (contains_last scopes x), extend-Covered kept more)
]

-- Any scopes are covered by themselves, also with more.
pub Covered-refl : (scopes : List String) → Covered scopes scopes
Covered-refl [] = tt
Covered-refl (x ∷ scopes) =
    (ground (arith, str_eq_refl x), All-weaken scopes (λ s h. ground arith) (Covered-refl scopes))

-- What is kept is among the scopes after further capabilities.
contains-scopes_from :
    (m : ProviderManifest) (names : List String) (scopes : List String) (s : String)
    {result : List String}
    → scopes_from m names scopes ≡ ok result
    → contains scopes s ≡ true
    → contains result s ≡ true
unfolding scopes_from extended
contains-scopes_from m [] scopes s {result} e h = ground arith
contains-scopes_from m (name ∷ rest) scopes s {result} e h =
    elim (Option-cases (lookup name m.capability_scopes)) [
      | inl missing ↦ absurd (ground arith)
      | inr (more, found) ↦
          contains-scopes_from m rest (extend scopes more) s {result = result} (ground arith)
            (contains-extend scopes more s h)
    ]

-- The scopes of the capability, if the manifest has it, are among the granted ones.
abbrev Grants : ProviderManifest → List String → String → Type 0
Grants m granted name =
    (scopes : List String) × (lookup name m.capability_scopes ≡ some scopes)
    × Covered granted scopes

scopes_from-Grants :
    (m : ProviderManifest) (names : List String) (scopes : List String) {result : List String}
    → scopes_from m names scopes ≡ ok result
    → All (Grants m result) names
unfolding scopes_from extended
scopes_from-Grants m [] scopes e = tt
scopes_from-Grants m (name ∷ rest) scopes {result} e =
    elim (Option-cases (lookup name m.capability_scopes)) [
      | inl missing ↦ absurd (ground arith)
      | inr (more, found) ↦
          let e' : scopes_from m rest (extend scopes more) ≡ ok result = ground arith in
          (
            (
              more,
              found,
              All-weaken more (λ s h. contains-scopes_from m rest (extend scopes more) s e' h)
                  (extend-Covered scopes more),
            ),
            scopes_from-Grants m rest (extend scopes more) e',
          )
    ]

granted_among-All :
    (P : String → Type 0) (granted : List String) (entries : List (String × List String))
    → All P (names entries)
    → All P (granted_among granted entries)
unfolding granted_among names
granted_among-All P granted [] h = tt
granted_among-All P granted ((name, scopes) ∷ entries) (p, h) =
    elim (Bool-cases (is_superset granted scopes)) [
      | inl covered ↦ rw covered (p, granted_among-All P granted entries h)
      | inr not_covered ↦ rw not_covered (granted_among-All P granted entries h)
    ]

-- What holds of every capability of the manifest holds of those that are granted.
pub granted_capabilities-All :
    (P : String → Type 0) (m : ProviderManifest) (granted : List String)
    → All P (capabilities m)
    → All P (granted_capabilities m granted)
unfolding granted_capabilities capabilities
granted_capabilities-All P m granted h = granted_among-All P granted m.capability_scopes h

is_superset-of_Covered :
    (granted scopes : List String) → Covered granted scopes → is_superset granted scopes ≡ true
unfolding is_superset
is_superset-of_Covered granted [] h = refl
is_superset-of_Covered granted (s ∷ scopes) (c, h) = rw c (is_superset-of_Covered granted scopes h)

granted_among-of_Covered :
    (granted : List String) (entries : List (String × List String)) (name : String)
    {scopes : List String}
    → lookup name entries ≡ some scopes
    → Covered granted scopes
    → contains (granted_among granted entries) name ≡ true
unfolding granted_among
granted_among-of_Covered granted [] name e h = cc
granted_among-of_Covered granted ((n, ss) ∷ entries) name {scopes} e h =
    elim (Bool-cases (str_eq n name)) [
      | inl here ↦
          let same : ss ≡ scopes = ground arith in
          let all = is_superset-of_Covered granted ss (rw same h) in ground arith
      | inr other ↦
          let rest =
            granted_among-of_Covered granted entries name {scopes = scopes} (ground arith) h in
          ground arith
    ]

contains-of_Covered :
    (granted asked : List String) (s : String)
    → Covered granted asked
    → contains asked s ≡ true
    → contains granted s ≡ true
contains-of_Covered granted [] s h c = cc
contains-of_Covered granted (x ∷ asked) s (g, h) c =
    ground (arith, eq_iff x s, contains-of_Covered granted asked s h)

-- A connection whose scopes include those that were asked for some capabilities grants each of
-- these capabilities.
pub granted_capabilities-scopes_for :
    (m : ProviderManifest) (wanted : List String) (granted : List String) {asked : List String}
    → scopes_for m wanted ≡ ok asked
    → Covered granted asked
    → All (λ name. contains (granted_capabilities m granted) name ≡ true) wanted
unfolding scopes_for granted_capabilities
granted_capabilities-scopes_for m wanted granted {asked} e h =
    All-weaken wanted
      (λ name (scopes, found, there).
        granted_among-of_Covered granted m.capability_scopes name found
          (All-weaken scopes (λ s c. contains-of_Covered granted asked s h c) there))
      (scopes_from-Grants m wanted m.base_scopes e)
