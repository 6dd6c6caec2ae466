-- ===== src/AgentTools/AllowList.antt =====
-- The allow-list denies by default.
use private_ai_workspace_eks.Prelude.{
  String, ◌≡◌, refl, Bool, false, Option, none, some, List, arith, contains, string_eq,
  if◌then◌else◌, Bool-cases, inl, inr,
}
use private_ai_workspace_eks.Prelude.Dict
use private_ai_workspace_eks.Prelude.Text.{is_empty}
use private_ai_workspace_eks.Json.{
  Json, Fields, end, field, Python, null, bool, int, float, str, arr, obj, get, has,
}
use private_ai_workspace_eks.AgentTools.{is_allowed, texts, allowlist_of, of_value, parse_allowlist}

-- `json.loads` gives each key of a dict once.
abbrev pub HasUniqueKeys : Fields → Type 0
HasUniqueKeys end = Unit
HasUniqueKeys (field k v r) = (has k r ≡ false) × HasUniqueKeys r

abbrev pub IsProper : Option Json → Type 0
IsProper (some (obj d)) = HasUniqueKeys d
IsProper _ = Unit

module _ ⦃py : Python⦄ where
  -- Whether the value under a tenant's key is a list with an element whose `str()` is the tool.
  abbrev pub lists : Json → String → Bool
  lists (arr l) tool = contains (texts l) tool
  lists _ tool = false

  -- What the operator's text entitles a tenant to, read straight from the JSON value.
  pub entitles : Option Json → String → String → Bool
  entitles (some (obj d)) tenant tool = lists (get tenant d) tool
  entitles _ tenant tool = false

  abbrev listed : Json → Option (List String)
  listed (arr l) = some (texts l)
  listed _ = none

  lookup_absent :
      (tenant : String) (d : Fields)
      → has tenant d ≡ false
      → Dict.lookup tenant (allowlist_of d) ≡ none
  unfolding has allowlist_of Dict.lookup
  lookup_absent tenant end h = refl
  lookup_absent tenant (field k null r) h = lookup_absent tenant r (ground arith)
  lookup_absent tenant (field k (bool b) r) h = lookup_absent tenant r (ground arith)
  lookup_absent tenant (field k (int n) r) h = lookup_absent tenant r (ground arith)
  lookup_absent tenant (field k (float f) r) h = lookup_absent tenant r (ground arith)
  lookup_absent tenant (field k (str s) r) h = lookup_absent tenant r (ground arith)
  lookup_absent tenant (field k (arr l) r) h = ground (arith, lookup_absent tenant r)
  lookup_absent tenant (field k (obj o) r) h = lookup_absent tenant r (ground arith)

  lookup-allowlist_of :
      (tenant : String) (d : Fields)
      → HasUniqueKeys d
      → Dict.lookup tenant (allowlist_of d) ≡ listed (get tenant d)
  unfolding get allowlist_of Dict.lookup
  lookup-allowlist_of tenant end u = refl
  lookup-allowlist_of tenant (field k (arr l) r) u =
      ground (arith, lookup-allowlist_of tenant r u.1)
  lookup-allowlist_of tenant (field k v r) u =
      ground (arith, lookup-allowlist_of tenant r u.1, lookup_absent k r u.0)

  is_allowed-allowlist_of :
      (d : Fields) (tenant tool : String)
      → HasUniqueKeys d
      → is_allowed (allowlist_of d) tenant tool ≡ lists (get tenant d) tool
  unfolding is_allowed
  is_allowed-allowlist_of d tenant tool u = ground (arith, lookup-allowlist_of tenant d u)

  of_value-entitles :
      (v : Option Json) (tenant tool : String)
      → IsProper v
      → is_allowed (of_value v) tenant tool ≡ entitles v tenant tool
  unfolding entitles is_allowed Dict.lookup
  of_value-entitles none tenant tool u = refl
  of_value-entitles (some (obj d)) tenant tool u = is_allowed-allowlist_of d tenant tool u
  of_value-entitles (some v) tenant tool u = refl

  -- What the setting entitles a tenant to; no setting, or an empty one, to nothing.
  pub entitles_setting : Option String → String → String → Bool
  entitles_setting none tenant tool = false
  entitles_setting (some raw) tenant tool =
      if is_empty raw then false else entitles (py.loads raw) tenant tool

  abbrev pub IsProperSetting : Option String → Type 0
  IsProperSetting none = Unit
  IsProperSetting (some raw) = IsProper (py.loads raw)

  -- A tool is allowed exactly if the setting is a JSON object, each key of which comes once, and its
  -- value under the tenant's key is a list with an element whose `str()` is the tool; no setting, an
  -- empty one and any other value allow nothing.
  pub is_allowed-parse_allowlist :
      (setting : Option String) (tenant tool : String)
      → IsProperSetting setting
      → is_allowed (parse_allowlist setting) tenant tool ≡ entitles_setting setting tenant tool
  unfolding parse_allowlist entitles_setting
  is_allowed-parse_allowlist none tenant tool u = unfold is_allowed Dict.lookup in refl
  is_allowed-parse_allowlist (some raw) tenant tool u = elim (Bool-cases (is_empty raw)) [
    | inl e ↦ rw e (unfold is_allowed Dict.lookup in refl)
    | inr e ↦ rw e (of_value-entitles (py.loads raw) tenant tool u)
  ]
