-- ===== src/Connectors/Registry.antt =====
-- apps/api/app/connectors/registry.py and capabilities.py: what a provider offers, the scopes that are
-- asked for, and the capabilities that a connection's scopes grant.
pub mod Granted
use blank.Prelude.{
  ℕ, Bool, true, false, not, ◌&&◌, Option, none, some, List, [], ◌∷◌, ◌++◌, String, str_eq,
  if◌then◌else◌, Result, ok, err,
}
use blank.Prelude.Text.{contains, lookup}
use blank.Connectors.Tokens.{ConnectionStatus, is_active}
use blank.Connectors.Models.{ConnectorProvider, google, microsoft, ConnectorConnection}

abbrev pub capability_mail : String
capability_mail = "mail"

abbrev pub capability_calendar : String
capability_calendar = "calendar"

abbrev pub known_capabilities : List String
known_capabilities = capability_mail ∷ capability_calendar ∷ []

-- `ProviderManifest`, without the endpoints, the budget and the lifetimes.
pub record ProviderManifest : Type 0 where
  pub provider : ConnectorProvider
  pub base_scopes : List String
  pub capability_scopes : List (String × List String)

-- `GOOGLE_MANIFEST` and `MICROSOFT_MANIFEST`.
abbrev pub google_manifest : ProviderManifest
google_manifest = record {
  provider = google;
  base_scopes = "openid" ∷ "email" ∷ [];
  capability_scopes =
      (
        capability_mail,
        "https://www.googleapis.com/auth/gmail.readonly"
            ∷ "https://www.googleapis.com/auth/gmail.send" ∷ [],
      )
      ∷ (capability_calendar, "https://www.googleapis.com/auth/calendar" ∷ [])
      ∷ [];
}

abbrev pub microsoft_manifest : ProviderManifest
microsoft_manifest = record {
  provider = microsoft;
  base_scopes = "openid" ∷ "email" ∷ "offline_access" ∷ [];
  capability_scopes =
      (capability_mail, "Mail.Read" ∷ "Mail.Send" ∷ [])
      ∷ (capability_calendar, "Calendars.ReadWrite" ∷ [])
      ∷ [];
}

abbrev pub get_provider : ConnectorProvider → ProviderManifest
get_provider google = google_manifest
get_provider microsoft = microsoft_manifest

unfoldable pub names : List (String × List String) → List String
names [] = []
names ((name, scopes) ∷ entries) = name ∷ names entries

unfoldable pub capabilities : ProviderManifest → List String
unfolding names
capabilities m = names m.capability_scopes

-- `scopes.extend(…)`, which sees what it has just added.
unfoldable pub extend : List String → List String → List String
extend scopes [] = scopes
extend scopes (s ∷ more) = extend (if contains scopes s then scopes else scopes ++ s ∷ []) more

pub data RegistryError : Type 0 where
  unsupported_capability : String → RegistryError

unfoldable pub extended :
    ProviderManifest
    → List String
    → String
    → Option (List String)
    → Result RegistryError (List String)
unfolding extend
extended m scopes name none = err (unsupported_capability name)
extended m scopes name (some more) = ok (extend scopes more)

unfoldable pub scopes_from :
    ProviderManifest → List String → List String → Result RegistryError (List String)
unfolding extended
scopes_from m [] scopes = ok scopes
scopes_from m (name ∷ rest) scopes =
    elim (extended m scopes name (lookup name m.capability_scopes)) [
      | err e ↦ err e
      | ok more ↦ scopes_from m rest more
    ]

unfoldable pub scopes_for : ProviderManifest → List String → Result RegistryError (List String)
unfolding scopes_from
scopes_for m names = scopes_from m names m.base_scopes

-- `granted.issuperset(scopes)`
unfoldable pub is_superset : List String → List String → Bool
is_superset granted [] = true
is_superset granted (s ∷ scopes) = if contains granted s then is_superset granted scopes else false

unfoldable pub granted_among : List String → List (String × List String) → List String
unfolding is_superset
granted_among granted [] = []
granted_among granted ((name, scopes) ∷ entries) =
    let rest = granted_among granted entries in
    if is_superset granted scopes then name ∷ rest else rest

-- `granted_capabilities`, of a manifest and the scopes of a connection.
unfoldable pub granted_capabilities : ProviderManifest → List String → List String
unfolding granted_among
granted_capabilities m scopes = granted_among scopes m.capability_scopes

pub data CapabilityError : Type 0 where
  unknown_capability not_active unsupported not_granted : CapabilityError

-- `get_capability`: the provider and the name under which an implementation is registered.
pub get_capability :
    ConnectorConnection → String → Result CapabilityError (ConnectorProvider × String)
unfolding capabilities granted_capabilities
get_capability c name =
    if not (contains known_capabilities name)
    then err unknown_capability
    else (if not (is_active c.tokens.status)
        then err not_active
        else (if not (contains (capabilities (get_provider c.provider)) name)
            then err unsupported
            else (if not (contains (granted_capabilities (get_provider c.provider) c.scopes) name)
                then err not_granted
                else ok (c.provider, name))))
