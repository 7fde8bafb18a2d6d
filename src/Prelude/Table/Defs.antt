-- ===== src/Prelude/Table/Defs.antt =====
-- Queries and writes on a table of rows with a numeric primary key.
use Prim.Native.Nat.{ℕ, ◌+◌}
use mathlib.Core.Path.{◌≡◌}
use mathlib.Core.Logic.{◌⊎◌}
use mathlib.Core.Bool.{Bool, true, false, not}
use mathlib.Core.Option.{Option, none, some}
use mathlib.Core.List.{List, [], ◌∷◌}
use blank.Prelude.Tests.{◌==◌, if◌then◌else◌}

module _ {R : Type 0} where
  -- `session.scalar(select(...).where(p))`
  abbrev pub find : (R → Bool) → List R → Option R
  find p [] = none
  find p (r ∷ rs) = if p r then some r else find p rs

  abbrev pub any : (R → Bool) → List R → Bool
  any p [] = false
  any p (r ∷ rs) = if p r then true else any p rs

  abbrev pub all : (R → Bool) → List R → Bool
  all p [] = true
  all p (r ∷ rs) = if p r then all p rs else false

  -- `select(func.count()).where(p)`
  abbrev pub count : (R → Bool) → List R → ℕ
  count p [] = 0
  count p (r ∷ rs) = (if p r then 1 else 0) + count p rs

  -- `session.scalars(select(...).where(p))`; `delete(...).where(q)` keeps the rows that fail `q`
  abbrev pub select : (R → Bool) → List R → List R
  select p [] = []
  select p (r ∷ rs) = if p r then r ∷ select p rs else select p rs

  -- An update of every row that passes the test.
  abbrev pub update_where : (R → Bool) → (R → R) → List R → List R
  update_where p f [] = []
  update_where p f (r ∷ rs) = (if p r then f r else r) ∷ update_where p f rs

  -- What holds of every row.
  abbrev pub All {κ} : (R → Type κ) → List R → Type κ
  All P [] = Unit
  All P (r ∷ rs) = P r × All P rs

  -- The row is one of the rows.
  abbrev pub Among : R → List R → Type 0
  Among r [] = ⊥
  Among r (x ∷ xs) = (x ≡ r) ⊎ Among r xs

module _ {R : Type 0} (key : R → ℕ) where
  abbrev pub get : ℕ → List R → Option R
  get i = find (λ r. key r == i)

  abbrev pub update : ℕ → (R → R) → List R → List R
  update i = update_where (λ r. key r == i)

  abbrev pub delete : ℕ → List R → List R
  delete i = select (λ r. not (key r == i))

  -- No two rows have one key.
  abbrev pub Unique : List R → Type 0
  Unique [] = Unit
  Unique (r ∷ rs) = (get (key r) rs ≡ none) × Unique rs
