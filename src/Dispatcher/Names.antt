-- ===== src/Dispatcher/Names.antt =====
-- `_safe_name`, `_safe_label` and `job_name` of app/dispatcher/jobspec.py
use Prim.Native.Char.{code}
use private_ai_workspace_eks.Prelude.{
  ℕ, String, ◌<>◌, Bool, true, false, ◌&&◌, ◌||◌, ◌==◌, nat_eq, if◌then◌else◌,
}
use private_ai_workspace_eks.Prelude.Text.{is_empty, slice_to, between}
use private_ai_workspace_eks.Json.{Python}

-- `[a-z0-9-]`
abbrev pub is_safe : ℕ → Bool
is_safe n = between 97 122 n || between 48 57 n || n == 45

-- `[a-z0-9A-Z._-]`
abbrev pub is_label_code : ℕ → Bool
is_label_code n = is_safe n || between 65 90 n || n == 46 || n == 95

abbrev pub is_dash : ℕ → Bool
is_dash n = n == 45

-- The characters of `strip("-._")`
abbrev pub is_edge : ℕ → Bool
is_edge n = n == 45 || n == 46 || n == 95

-- `re.sub("[^...]+", "-", s)`: a run of other characters becomes one dash. The flag says that the
-- text is inside a run.
unfoldable pub sub_dash : (ℕ → Bool) → Bool → String → String
sub_dash allowed inside String.[] = String.[]
sub_dash allowed inside (String.◌∷◌ c s) =
    let next = sub_dash allowed false s in
    let skipped = sub_dash allowed true s in
    if allowed (code c)
    then String.◌∷◌ c next
    else if inside
    then skipped
    else String.◌∷◌ "-" skipped

-- `s.strip(chars)`
unfoldable pub lstrip_by : (ℕ → Bool) → String → String
lstrip_by p String.[] = String.[]
lstrip_by p (String.◌∷◌ c s) =
    let rest = lstrip_by p s in if p (code c) then rest else String.◌∷◌ c s

unfoldable pub rstrip_by : (ℕ → Bool) → String → String
rstrip_by p String.[] = String.[]
rstrip_by p (String.◌∷◌ c s) =
    let rest = rstrip_by p s in if p (code c) && is_empty rest then String.[] else String.◌∷◌ c rest

abbrev pub strip_by : (ℕ → Bool) → String → String
strip_by p s = rstrip_by p (lstrip_by p s)

-- `s or default`
abbrev pub or_default : String → String → String
or_default s default = if is_empty s then default else s

unfoldable pub safe_name : ⦃py : Python⦄ → String → String
safe_name ⦃py⦄ value =
    let v = strip_by is_dash (sub_dash is_safe false (py.lower value)) in
    or_default (strip_by is_dash (slice_to 40 v)) "x"

unfoldable pub safe_label : String → String
safe_label value =
    or_default (strip_by is_edge (slice_to 63 (sub_dash is_label_code false value))) "unknown"

unfoldable pub job_name : ⦃py : Python⦄ → String → String
job_name run_id = "tool-" <> safe_name run_id
