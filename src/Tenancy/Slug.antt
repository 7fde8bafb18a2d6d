-- ===== src/Tenancy/Slug.antt =====
-- apps/api/app/tenancy/models.py and deps.py: the format of a slug, and the slug of a Host header.
-- `str.strip` and `str.lower` are Python's.
use Prim.Native.Char.{Char, code}
use Prim.Native.String
use Prim.Native.String.{[], ◌∷◌}
use text.Mathlib.TextLemmas.{nil-append, cons-append}
use blank.Prelude.{
  ℕ, ◌≡◌, Bool, true, false, not, ◌&&◌, ◌||◌, Option, none, some, List, [], ◌∷◌, String, arith, leb,
  ◌==◌, if◌then◌else◌, Result, ok, err,
}
use blank.Prelude.Lists.{length}
use blank.Prelude.Table.{all}
use blank.Prelude.Text.{codes, contains}
use blank.Auth.Permissions.Names.{is_lower}

-- `[a-z0-9-]`
abbrev is_slug_char : ℕ → Bool
is_slug_char c = is_lower c || (leb b'0' c && leb c b'9') || c == b'-'

-- `SLUG_RE.fullmatch`, `^[a-z][a-z0-9-]{1,38}$`
abbrev slug_format : List ℕ → Bool
slug_format [] = false
slug_format (c ∷ cs) = is_lower c && all is_slug_char cs && leb 1 (length cs) && leb (length cs) 38

unfoldable pub is_slug : String → Bool
is_slug s = slug_format (codes s)

abbrev reserved_slugs : List String
reserved_slugs = "www" ∷ "api" ∷ "admin" ∷ "app" ∷ "staging" ∷ "status" ∷ "grafana" ∷ []

-- The `ValueError`s of `validate_slug`.
pub data SlugError : Type 0 where
  invalid_slug reserved_slug : SlugError

unfoldable pub validate_slug : String → Result SlugError String
validate_slug slug =
    if not (is_slug slug)
    then err invalid_slug
    else (if contains reserved_slugs slug then err reserved_slug else ok slug)

-- `text.split(sep, 1)[0]`, and whether the separator stands in the text.
unfoldable pub before : ℕ → String → String
before sep String.[] = ""
before sep (String.◌∷◌ c s) =
    let rest = before sep s in if code c == sep then "" else String.◌∷◌ c rest

unfoldable pub has : ℕ → String → Bool
has sep String.[] = false
has sep (String.◌∷◌ c s) = if code c == sep then true else has sep s

module _ (strip lower : String → String) where
  -- The first label of the host, which has two labels at least.
  unfoldable pub extract_slug : String → Option String
  extract_slug host_header =
      let host = lower (strip (before b':' host_header)) in
      let candidate = before b'.' host in
      if has b'.' host && is_slug candidate then some candidate else none

-- A text of slug characters holds no dot, and is all that stands before the first one.
before-slug :
    (s : String) (c : Char) (rest : String)
    → all is_slug_char (codes s) ≡ true
    → code c ≡ b'.'
    → (before b'.' (String.◌++◌ s (String.◌∷◌ c rest)) ≡ s)
      × (has b'.' (String.◌++◌ s (String.◌∷◌ c rest)) ≡ true)
unfolding before has
before-slug String.[] c rest h dot = rw nil-append (ground arith)
before-slug (String.◌∷◌ d s) c rest h dot =
    rw cons-append (ground (arith, before-slug s c rest (ground arith) dot))

slug_chars : (s : String) → is_slug s ≡ true → all is_slug_char (codes s) ≡ true
unfolding is_slug
slug_chars String.[] h = cc
slug_chars (String.◌∷◌ c s) h = ground arith

-- A host whose normal form is a slug, a dot and a domain gives that slug.
pub extract_slug-of_host :
    (strip lower : String → String) (host_header slug : String) (dot : Char) (domain : String)
    → is_slug slug ≡ true
    → code dot ≡ b'.'
    → lower (strip (before b':' host_header)) ≡ String.◌++◌ slug (String.◌∷◌ dot domain)
    → extract_slug strip lower host_header ≡ some slug
unfolding extract_slug
extract_slug-of_host strip lower host_header slug dot domain good is_dot normal =
    let parts = before-slug slug dot domain (slug_chars slug good) is_dot in
    rw normal (ground (arith, parts))
