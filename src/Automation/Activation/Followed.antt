-- ===== src/Automation/Activation/Followed.antt =====
-- apps/api/app/automation/service.py: the operations of a process, one after the other.
use blank.Prelude.{
  ℕ, ◌≡◌, ap, ◌⊎◌, inl, inr, Bool, true, false, ◌&&◌, Option, none, some, List, [], ◌∷◌, String,
  str_eq, eq_iff, arith, ◌==◌, if◌then◌else◌, Bool-cases, Option-cases, ok, err,
}
use blank.Prelude.Text.{str_eq_refl}
use blank.Prelude.Table.{find}
use blank.Automation.Activation.{
  TenantConnection, ModuleState, is_row, is_entry, missing_capabilities, row_enabled, activate,
  deactivate, enable_module, disable_module, live_entry, is_module_enabled, require_module_enabled,
}
use blank.Automation.Activation.Cache.{
  is_on, Agrees, is_other, find-invalidate_self, find-invalidate_other, find-update_other,
  find-enable_row_other,
}

is_module_enabled-Agrees :
    (t : ℕ) (m : String) (now : ℕ) (s : ModuleState)
    → Agrees t m s
    → (is_module_enabled t m now s).0 ≡ is_on t m s
unfolding is_module_enabled live_entry
is_module_enabled-Agrees t m now s h = elim (Option-cases (find (is_entry t m) s.cache)) [
  | inl absent ↦ ground arith
  | inr (entry, cached) ↦ ground arith
]

-- After a write under its own key a key has no entry left.
absent-Agrees :
    (t : ℕ) (m : String) (s : ModuleState) → find (is_entry t m) s.cache ≡ none → Agrees t m s
absent-Agrees t m s absent = ground (arith, absent)

-- A write under another key leaves what a key reads.
same-Agrees :
    (t : ℕ) (m : String) (s s' : ModuleState)
    → find (is_entry t m) s'.cache ≡ find (is_entry t m) s.cache
    → find (is_row t m) s'.rows ≡ find (is_row t m) s.rows
    → Agrees t m s
    → Agrees t m s'
same-Agrees t m s s' cached stored h = ground (arith, ap row_enabled stored)

same_key :
    (t : ℕ) (m : String) (u : ℕ) (n : String) → ((t ≡ u) × (m ≡ n)) ⊎ (is_other t m u n ≡ true)
same_key t m u n = elim (Bool-cases ((t == u) && str_eq m n)) [
  | inl same ↦ inl (ground arith, ground (arith, eq_iff m n))
  | inr other ↦ inr (ground arith)
]

activate-Agrees :
    (t : ℕ) (m : String) (u : ℕ) (n : String) (missing : List String) (s : ModuleState)
    → Agrees t m s
    → Agrees t m (activate u n missing s).1
unfolding activate
activate-Agrees t m u n (c ∷ cs) s h = h
activate-Agrees t m u n [] s h = elim (same_key t m u n) [
  | inl (eₜ, eₘ) ↦
      rw (eₜ, eₘ) (absent-Agrees u n (activate u n [] s).1 (find-invalidate_self u n s.cache))
  | inr other ↦
      same-Agrees t m s (activate u n [] s).1 (find-invalidate_other t m u n s.cache other)
        (find-enable_row_other t m u n (find (is_row u n) s.rows) s.rows other) h
]

deactivate-Agrees :
    (t : ℕ) (m : String) (u : ℕ) (n : String) (on : Bool) (s : ModuleState)
    → Agrees t m s
    → Agrees t m (deactivate u n on s)
unfolding deactivate
deactivate-Agrees t m u n false s h = h
deactivate-Agrees t m u n true s h = elim (same_key t m u n) [
  | inl (eₜ, eₘ) ↦
      rw (eₜ, eₘ) (absent-Agrees u n (deactivate u n true s) (find-invalidate_self u n s.cache))
  | inr other ↦
      same-Agrees t m s (deactivate u n true s) (find-invalidate_other t m u n s.cache other)
        (find-update_other t m u n false s.rows other) h
]

asking-Agrees :
    (t : ℕ) (m : String) (u : ℕ) (n : String) (now : ℕ) (s : ModuleState)
    → Agrees t m s
    → Agrees t m (is_module_enabled u n now s).1
unfolding is_module_enabled live_entry
asking-Agrees t m u n now s h = elim (same_key t m u n) [
  | inl (eₜ, eₘ) ↦ elim (Option-cases (find (is_entry u n) s.cache)) [
    | inl absent ↦ ground (arith, str_eq_refl n)
    | inr (entry, cached) ↦ ground (arith, str_eq_refl n)
  ]
  | inr other ↦
      let gone = find-invalidate_other t m u n s.cache other in
      elim (Option-cases (find (is_entry u n) s.cache)) [
        | inl absent ↦ ground (arith, eq_iff n m, eq_iff m n)
        | inr (entry, cached) ↦ ground (arith, eq_iff n m, eq_iff m n)
      ]
]

-- The operations of a process.
pub data Operation : Type 0 where
  enabling : ℕ → String → List TenantConnection → Operation
  disabling : ℕ → String → Operation
  asking : ℕ → String → ℕ → Operation

-- `registry` gives the required capabilities of a registered module.
module _ (registry : String → Option (List String)) where
  pub run : Operation → ModuleState → ModuleState
  run (enabling u n connections) s = (enable_module (registry n) u n connections s).1
  run (disabling u n) s = (disable_module (registry n) u n s).1
  run (asking u n now) s = (is_module_enabled u n now s).1

  pub run_all : List Operation → ModuleState → ModuleState
  run_all [] s = s
  run_all (op ∷ ops) s = run_all ops (run op s)

  enable-Agrees :
      (t : ℕ) (m : String) (required : Option (List String)) (u : ℕ) (n : String)
      (connections : List TenantConnection) (s : ModuleState)
      → Agrees t m s
      → Agrees t m (enable_module required u n connections s).1
  unfolding enable_module
  enable-Agrees t m none u n connections s h = h
  enable-Agrees t m (some required) u n connections s h =
      activate-Agrees t m u n (missing_capabilities required connections) s h

  disable-Agrees :
      (t : ℕ) (m : String) (required : Option (List String)) (u : ℕ) (n : String) (s : ModuleState)
      → Agrees t m s
      → Agrees t m (disable_module required u n s).1
  unfolding disable_module
  disable-Agrees t m none u n s h = h
  disable-Agrees t m (some required) u n s h = deactivate-Agrees t m u n _ s h

  run_all-Agrees :
      (t : ℕ) (m : String) (ops : List Operation) (s : ModuleState)
      → Agrees t m s
      → Agrees t m (run_all ops s)
  unfolding run_all run
  run_all-Agrees t m [] s h = h
  run_all-Agrees t m (enabling u n connections ∷ ops) s h =
      run_all-Agrees t m ops _ (enable-Agrees t m (registry n) u n connections s h)
  run_all-Agrees t m (disabling u n ∷ ops) s h =
      run_all-Agrees t m ops _ (disable-Agrees t m (registry n) u n s h)
  run_all-Agrees t m (asking u n now ∷ ops) s h =
      run_all-Agrees t m ops _ (asking-Agrees t m u n now s h)

  -- After any sequence of operations of a process that starts with an empty cache, the guard of a
  -- module's routes lets a tenant in just if the table says that the module is enabled for it.
  pub require_module_enabled-follows :
      (t : ℕ) (m : String) (now : ℕ) (ops : List Operation) (s : ModuleState)
      → s.cache ≡ []
      → let s' = run_all ops s in
        (require_module_enabled t m now s').0 ≡ (if is_on t m s' then ok t else err 403)
  unfolding require_module_enabled
  require_module_enabled-follows t m now ops s fresh =
      let start = absent-Agrees t m s (ap (find (is_entry t m)) fresh) in
      let there =
        is_module_enabled-Agrees t m now (run_all ops s) (run_all-Agrees t m ops s start) in
      ground arith
