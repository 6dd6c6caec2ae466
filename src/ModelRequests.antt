-- ===== src/ModelRequests.antt =====
-- app/control_plane/model_requests.py: the install requests, their ids and the operator's
-- allow-list. Times are in whole units since an epoch.
pub mod Store
pub mod Handlers
pub mod Caps
pub mod Admission
pub mod Bodies
pub mod Queue
use Prim.Native.Char.{code}
use private_ai_workspace_eks.Prelude.{
  ℕ, String, Bool, true, false, Option, none, some, List, [], ◌∷◌, ◌&&◌, ◌||◌, not, ◌==◌, leb,
  contains, nat_eq, string_eq, if◌then◌else◌,
}
use private_ai_workspace_eks.Prelude.Text.{is_empty, strip, between, before}
use private_ai_workspace_eks.Json.{Json, Python, null, str, dict}
use private_ai_workspace_eks.Auth.{TokenClaims, has_group}

pub record ModelInstallRequest : Type 0 where
  pub id : String
  pub tenant_id : String
  pub user_id : String
  pub hf_repo_id : String
  pub revision : String
  pub status : String
  pub error_class : String
  pub created_at : ℕ
  pub updated_at : ℕ

-- `s or None`
abbrev or_null : String → Json
or_null s = if is_empty s then null else str s

abbrev api_fields :
    ⦃py : Python⦄ → ModelInstallRequest → List (String × Json) → List (String × Json)
api_fields ⦃py⦄ r more =
    ("id", str r.id)
    ∷ ("hf_repo_id", str r.hf_repo_id)
    ∷ ("revision", or_null r.revision)
    ∷ ("status", str r.status)
    ∷ ("error_class", or_null r.error_class)
    ∷ ("created_at", str (py.isoformat r.created_at))
    ∷ ("updated_at", str (py.isoformat r.updated_at))
    ∷ more

unfoldable pub to_api_dict : ⦃py : Python⦄ → ModelInstallRequest → Json
to_api_dict r = dict (api_fields r [])

unfoldable pub to_admin_dict : ⦃py : Python⦄ → ModelInstallRequest → Json
to_admin_dict r =
    dict (api_fields r (("tenant_id", str r.tenant_id) ∷ ("requested_by", str r.user_id) ∷ []))

-- `[A-Za-z0-9]`, and `[A-Za-z0-9._-]` with `/` or without.
abbrev pub is_alphanumeric : ℕ → Bool
is_alphanumeric n = between 48 57 n || between 65 90 n || between 97 122 n

abbrev pub is_name_code : ℕ → Bool
is_name_code n = is_alphanumeric n || n == 45 || n == 46 || n == 95

abbrev pub is_ref_code : ℕ → Bool
is_ref_code n = is_name_code n || n == 47

-- `c*$` for a class of characters: `$` also matches before a newline that ends the text.
unfoldable pub matches_to_end : (ℕ → Bool) → String → Bool
matches_to_end p String.[] = true
matches_to_end p (String.◌∷◌ c s) =
    let rest = matches_to_end p s in if p (code c) then rest else code c == 10 && is_empty s

abbrev matches_name : (ℕ → Bool) → String → Bool
matches_name p String.[] = false
matches_name p (String.◌∷◌ c s) = is_alphanumeric (code c) && matches_to_end p s

-- The rest of `_HF_REPO_RE` behind the first character. 47 is the slash.
unfoldable pub matches_repo_rest : String → Bool
unfolding matches_to_end
matches_repo_rest String.[] = false
matches_repo_rest (String.◌∷◌ c s) =
    let rest = matches_repo_rest s in
    if code c == 47 then matches_name is_name_code s else is_name_code (code c) && rest

-- `_HF_REPO_RE.match(s)`
unfoldable pub is_repo_id : String → Bool
unfolding matches_repo_rest
is_repo_id String.[] = false
is_repo_id (String.◌∷◌ c s) = is_alphanumeric (code c) && matches_repo_rest s

-- `_REVISION_RE.match(s)`
unfoldable pub is_revision : String → Bool
unfolding matches_to_end
is_revision s = matches_name is_ref_code s

-- `".." in s`; the flag says that the last character was a dot.
unfoldable pub has_dots : Bool → String → Bool
has_dots dot String.[] = false
has_dots dot (String.◌∷◌ c s) = let is_dot = code c == 46 in (dot && is_dot) || has_dots is_dot s

-- `s.split(",")`
unfoldable pub split_on : ℕ → String → List String
split_on n String.[] = "" ∷ []
split_on n (String.◌∷◌ c s) =
    let rest = split_on n s in
    if code c == n
    then "" ∷ rest
    else elim rest [ [] ↦ String.◌∷◌ c "" ∷ [] | w ∷ ws ↦ String.◌∷◌ c w ∷ ws ]

stripped : List String → List String
stripped [] = []
stripped (w ∷ ws) = let rest = stripped ws in if is_empty (strip w) then rest else strip w ∷ rest

unfoldable pub parse_repo_allowlist : Option String → List String
unfolding split_on stripped
parse_repo_allowlist none = []
parse_repo_allowlist (some raw) = if is_empty raw then [] else stripped (split_on 44 raw)

unfoldable pub is_repo_allowed : List String → String → Bool
is_repo_allowed [] repo_id = false
is_repo_allowed allowlist repo_id =
    if contains allowlist "*"
    then true
    else if contains allowlist repo_id
    then true
    else contains allowlist (before 47 repo_id)

-- The settings that the handlers read.
pub record Config : Type 0 where
  pub model_install_enabled : Bool
  pub allow_all_users : Bool
  pub install_group : Option String
  pub admin_group : Option String
  pub allowlist : Option String
  pub max_open_per_tenant : ℕ
  pub installer_token : Option String

-- `admin_group or "admin"`
abbrev or_admin : Option String → String
or_admin none = "admin"
or_admin (some g) = if is_empty g then "admin" else g

unfoldable pub is_admin : TokenClaims → Config → Bool
is_admin c config = has_group c (or_admin config.admin_group)

abbrev in_group : TokenClaims → Option String → Bool
in_group c none = false
in_group c (some g) = not (is_empty g) && has_group c g

unfoldable pub user_can_request_install : TokenClaims → Config → Bool
user_can_request_install c config =
    config.allow_all_users || in_group c config.install_group || is_admin c config
