-- ===== src/Auth/Permissions/Names.antt =====
-- The names of roles and permissions, and the format of a module's permission.
use blank.Prelude.{
  ℕ, Bool, false, not, ◌&&◌, ◌||◌, Option, none, some, List, [], ◌∷◌, String, leb, ◌==◌,
  if◌then◌else◌,
}
use blank.Prelude.Table.{all}
use blank.Prelude.Text.{codes}

abbrev pub role_owner : String
role_owner = "owner"

abbrev pub role_admin : String
role_admin = "admin"

abbrev pub role_member : String
role_member = "member"

abbrev pub member_permissions : List String
member_permissions = "core.members.read" ∷ "core.teams.read" ∷ "core.connectors.read" ∷ []

-- The union of the member's permissions and those that the code lists.
abbrev pub admin_permissions : List String
admin_permissions =
    "core.members.read" ∷ "core.teams.read" ∷ "core.connectors.read" ∷ "core.members.manage"
    ∷ "core.teams.manage" ∷ "core.tenant.settings" ∷ "core.audit.read" ∷ "core.connectors.manage"
    ∷ "core.ai.use" ∷ []

abbrev pub permissions : List String
permissions =
    "core.members.read" ∷ "core.members.manage" ∷ "core.teams.read" ∷ "core.teams.manage"
    ∷ "core.tenant.settings" ∷ "core.audit.read" ∷ "core.connectors.read" ∷ "core.connectors.manage"
    ∷ "core.ai.use" ∷ []

abbrev pub role_permissions : List (String × List String)
role_permissions =
    (role_member, member_permissions)
    ∷ (role_admin, admin_permissions)
    ∷ (role_owner, admin_permissions)
    ∷ []

abbrev pub roles : List String
roles = role_member ∷ role_admin ∷ role_owner ∷ []

-- `[a-z]`
abbrev pub is_lower : ℕ → Bool
is_lower c = leb b'a' c && leb c b'z'

-- `[a-z0-9_]`
abbrev pub is_word : ℕ → Bool
is_word c = is_lower c || (leb b'0' c && leb c b'9') || c == b'_'

abbrev length : List ℕ → ℕ
length [] = 0
length (_ ∷ cs) = ℕ.suc (length cs)

-- `[a-z][a-z0-9_]{1,30}`
abbrev pub is_module_name : List ℕ → Bool
is_module_name [] = false
is_module_name (c ∷ cs) = is_lower c && all is_word cs && leb 1 (length cs) && leb (length cs) 30

-- `[a-z][a-z0-9_.]+`
abbrev is_action : List ℕ → Bool
is_action [] = false
is_action (c ∷ cs) = is_lower c && leb 1 (length cs) && all (λ d. is_word d || d == b'.') cs

-- The text before the first dot, and the text after it.
abbrev pub split_dot : List ℕ → Option (List ℕ × List ℕ)
split_dot [] = none
split_dot (c ∷ cs) =
    if c == b'.'
    then some ([], cs)
    else elim (split_dot cs) [ none ↦ none | some (name, rest) ↦ some (c ∷ name, rest) ]

abbrev is_dotted_name : Option (List ℕ × List ℕ) → Bool
is_dotted_name none = false
is_dotted_name (some (name, action)) = is_module_name name && is_action action

-- `permission.startswith("core.")`
abbrev pub is_core : List ℕ → Bool
is_core (c ∷ o ∷ r ∷ e ∷ dot ∷ _) = c == b'c' && o == b'o' && r == b'r' && e == b'e' && dot == b'.'
is_core _ = false

-- `_MODULE_PERMISSION_RE.fullmatch(name)`; the name before the first dot holds no dot.
unfoldable pub is_module_permission : String → Bool
is_module_permission name = not (is_core (codes name)) && is_dotted_name (split_dot (codes name))
