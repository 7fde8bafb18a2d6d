-- ===== src/Tests/Automation.antt =====
-- A module that is enabled, asked for, disabled and asked for again.
use blank.Prelude.{
  ◌≡◌, refl, Option, none, some, List, [], ◌∷◌, String, str_eq, if◌then◌else◌, ok, err,
}
use blank.Automation.Activation.{ModuleState, require_module_enabled}
use blank.Connectors.Tokens.{active}
use blank.Automation.Activation.Cache.{is_on}
use blank.Automation.Activation.Followed.{
  Operation, enabling, disabling, asking, run_all, require_module_enabled-follows,
}

abbrev registry : String → Option (List String)
registry name = if str_eq name "digest" then some ("mail" ∷ []) else none

abbrev no_modules : ModuleState
no_modules = record { rows = []; cache = []; audit = [] }

abbrev history : List Operation
history =
    enabling 1 "digest" (record { status = active; granted = "mail" ∷ [] } ∷ [])
    ∷ asking 1 "digest" 0
    ∷ disabling 1 "digest"
    ∷ asking 2 "digest" 5
    ∷ []

require_module_enabled-follows_example :
    let s' = run_all registry history no_modules in
    (require_module_enabled 1 "digest" 6 s').0 ≡ (if is_on 1 "digest" s' then ok 1 else err 403)
require_module_enabled-follows_example =
    require_module_enabled-follows registry 1 "digest" 6 history no_modules refl
