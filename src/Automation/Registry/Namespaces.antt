-- ===== src/Automation/Registry/Namespaces.antt =====
-- apps/api/app/automation/registry.py: the namespaces of the modules.
use blank.Prelude.{
  ℕ, ◌≡◌, refl, inl, inr, true, false, List, [], ◌∷◌, ◌++◌, arith, ◌==◌, Bool-cases, ok,
  Result-cases,
}
use blank.Prelude.Table.{All, All-weaken, any, all}
use blank.Automation.Registry.{
  ModuleManifest, is_name_char, is_module_name, starts_with, same_name, prefix_of,
  validate_manifest, validate_from, validate_registry,
}

abbrev Dotless : List ℕ → Type 0
Dotless = All (λ c. (c == b'.') ≡ false)

name_chars-Dotless : (cs : List ℕ) → all is_name_char cs ≡ true → Dotless cs
name_chars-Dotless [] h = tt
name_chars-Dotless (c ∷ cs) h = (ground arith, name_chars-Dotless cs (ground arith))

is_module_name-Dotless : (name : List ℕ) → is_module_name name ≡ true → Dotless name
unfolding is_module_name
is_module_name-Dotless [] h = tt
is_module_name-Dotless (c ∷ cs) h = (ground arith, name_chars-Dotless cs (ground arith))

-- A text stands in the namespace of one name without a dot only.
starts_with_unique :
    (text a b : List ℕ)
    → Dotless a
    → Dotless b
    → starts_with text (a ++ b'.' ∷ []) ≡ true
    → starts_with text (b ++ b'.' ∷ []) ≡ true
    → same_name a b ≡ true
unfolding starts_with same_name
starts_with_unique text [] [] da db ha hb = refl
starts_with_unique [] [] (y ∷ b) da db ha hb = cc
starts_with_unique (c ∷ text) [] (y ∷ b) da (ny, db) ha hb = ground arith
starts_with_unique [] (x ∷ a) b da db ha hb = cc
starts_with_unique (c ∷ text) (x ∷ a) [] (nx, da) db ha hb = ground arith
starts_with_unique (c ∷ text) (x ∷ a) (y ∷ b) (nx, da) (ny, db) ha hb =
    ground (arith, starts_with_unique text a b da db)

-- What the checks of a manifest establish.
abbrev IsNamespaced : ModuleManifest → Type 0
IsNamespaced m =
    (is_module_name m.name ≡ true)
    × (all (λ p. starts_with p.name (prefix_of m)) m.permissions ≡ true)
    × (all (λ t. starts_with t.name (prefix_of m)) m.periodic_tasks ≡ true)
    × (all (λ a. starts_with a (prefix_of m)) m.audit_actions ≡ true)
    × (all (λ r. any (λ p. starts_with p (prefix_of m)) r.required) m.routes ≡ true)

validate_manifest-IsNamespaced : (m : ModuleManifest) → validate_manifest m ≡ ok tt → IsNamespaced m
unfolding validate_manifest
validate_manifest-IsNamespaced m h =
    (ground arith, ground arith, ground arith, ground arith, ground arith)

abbrev Fresh : List (List ℕ) → ModuleManifest → Type 0
Fresh seen m = any (λ n. same_name n m.name) seen ≡ false

abbrev OtherName : ModuleManifest → ModuleManifest → Type 0
OtherName m x = same_name m.name x.name ≡ false

abbrev Apart : List ModuleManifest → Type 0
Apart [] = Unit {0}
Apart (m ∷ ms) = All (OtherName m) ms × Apart ms

validate_from-facts :
    (seen : List (List ℕ)) (modules : List ModuleManifest)
    → validate_from seen modules ≡ ok tt
    → All (λ m. IsNamespaced m × Fresh seen m) modules × Apart modules
unfolding validate_from
validate_from-facts seen [] h = (tt, tt)
validate_from-facts seen (m ∷ modules) h = elim (Bool-cases (any (λ n. same_name n m.name) seen)) [
  | inl taken ↦ absurd (ground arith)
  | inr free ↦ elim (Result-cases (validate_manifest m)) [
    | inr (e, invalid) ↦ absurd (ground arith)
    | inl (u, valid) ↦
        let later : validate_from (m.name ∷ seen) modules ≡ ok tt = ground arith in
        let (each, apart) = validate_from-facts (m.name ∷ seen) modules later in
        (
          (
            (validate_manifest-IsNamespaced m valid, free),
            All-weaken modules (λ x f. (f.0, ground arith)) each,
          ),
          (All-weaken modules (λ x f. ground arith) each, apart),
        )
  ]
]

-- No text stands in both namespaces.
abbrev pub Disjoint : ModuleManifest → ModuleManifest → Type 0
Disjoint a b =
    (text : List ℕ) → starts_with text (prefix_of a) ≡ true → starts_with text (prefix_of b) ≡ false

abbrev pub AreDisjoint : List ModuleManifest → Type 0
AreDisjoint [] = Unit {0}
AreDisjoint (m ∷ ms) = All (Disjoint m) ms × AreDisjoint ms

-- The permissions, tasks and audit actions of the module are in its namespace, and each of its
-- routes requires a permission of its namespace.
abbrev pub StaysInside : ModuleManifest → Type 0
StaysInside m =
    (all (λ p. starts_with p.name (prefix_of m)) m.permissions ≡ true)
    × (all (λ t. starts_with t.name (prefix_of m)) m.periodic_tasks ≡ true)
    × (all (λ a. starts_with a (prefix_of m)) m.audit_actions ≡ true)
    × (all (λ r. any (λ p. starts_with p (prefix_of m)) r.required) m.routes ≡ true)

disjoint :
    (a b : ModuleManifest)
    → is_module_name a.name ≡ true
    → is_module_name b.name ≡ true
    → OtherName a b
    → Disjoint a b
disjoint a b na nb other text here = elim (Bool-cases (starts_with text (prefix_of b))) [
  | inr outside ↦ outside
  | inl inside ↦
      let same =
        starts_with_unique text a.name b.name (is_module_name-Dotless a.name na)
          (is_module_name-Dotless b.name nb) here inside in
      cc
]

disjoint-All :
    (modules : List ModuleManifest)
    → All (λ m. is_module_name m.name ≡ true) modules
    → Apart modules
    → AreDisjoint modules
disjoint-All [] n a = tt
disjoint-All (m ∷ ms) (nm, n) (o, a) = (disjoint-from m ms nm n o, disjoint-All ms n a)
  where
    disjoint-from :
        (m : ModuleManifest) (ms : List ModuleManifest)
        → is_module_name m.name ≡ true
        → All (λ x. is_module_name x.name ≡ true) ms
        → All (OtherName m) ms
        → All (Disjoint m) ms
    disjoint-from m [] nm n o = tt
    disjoint-from m (x ∷ xs) nm (nx, n) (ox, o) = (disjoint m x nm nx ox, disjoint-from m xs nm n o)

-- In a registry that passes the checks at start-up, the permissions, tasks and audit actions of each
-- module are in its namespace, and each of its routes requires at least one permission of its
-- namespace; and the namespaces of two modules have no name in common.
pub validate_registry-AreDisjoint :
    (modules : List ModuleManifest)
    → validate_registry modules ≡ ok tt
    → All StaysInside modules × AreDisjoint modules
unfolding validate_registry
validate_registry-AreDisjoint modules h =
    let (each, apart) = validate_from-facts [] modules h in
    (
      All-weaken modules (λ m f. (f.0.1, f.0.2, f.0.3, f.0.4)) each,
      disjoint-All modules (All-weaken modules (λ m f. f.0.0) each) apart,
    )
