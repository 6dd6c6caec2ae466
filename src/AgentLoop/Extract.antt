-- ===== src/AgentLoop/Extract.antt =====
-- `_extract_json_object` and `_parse_action`: the first JSON object in what a model has written.
use Prim.Native.Char.{code}
use private_ai_workspace_eks.Prelude.{
  ℕ, zero, suc, String, Option, none, some, ◌==◌, nat_eq, if◌then◌else◌,
}
use private_ai_workspace_eks.Json.{Json, Fields, Python, obj, has}

-- The classes of characters that the scan tells apart: `"`, `\`, `{`, `}` and the rest.
pub data Kind : Type 0 where
  quote backslash opening closing plain : Kind

unfoldable pub kind_of : ℕ → Kind
kind_of n =
    if n == 34
    then quote
    else if n == 92
    then backslash
    else if n == 123
    then opening
    else if n == 125
    then closing
    else plain

-- The variables of the scan behind the opening brace: `depth` counts the braces that are open but
-- for the first one.
pub data Mode : Type 0 where
  outside in_str escaped : Mode

-- What one character does: the scan goes on, or the first brace is closed.
pub data Seen : Type 0 where
  on : ℕ → Mode → Seen
  closed : Seen

unfoldable pub see : Kind → ℕ → Mode → Seen
see k d escaped = on d in_str
see backslash d in_str = on d escaped
see quote d in_str = on d outside
see k d in_str = on d in_str
see quote d outside = on d in_str
see opening d outside = on (suc d) outside
see closing (suc d) outside = on d outside
see closing zero outside = closed
see k d outside = on d outside

-- The text up to the brace that closes the first one.
unfoldable pub scan : ℕ → Mode → String → Option String
unfolding see
scan d m String.[] = none
scan d m (String.◌∷◌ c s) = elim (see (kind_of (code c)) d m) [
  | closed ↦ some (String.◌∷◌ c String.[])
  | on d' m' ↦ elim (scan d' m' s) [ none ↦ none | some t ↦ some (String.◌∷◌ c t) ]
]

module _ ⦃py : Python⦄ where
  -- A candidate that is no JSON moves the search to the next brace.
  unfoldable pub judge : Option Json → Option Fields → Option Fields
  judge none later = later
  judge (some (obj d)) later = some d
  judge (some v) later = none

  unfoldable pub attempt : Option String → Option Fields → Option Fields
  unfolding judge
  attempt none later = later
  attempt (some t) later = judge (py.loads t) later

  unfoldable pub extract_json_object : String → Option Fields
  unfolding attempt
  extract_json_object String.[] = none
  extract_json_object (String.◌∷◌ c s) =
      let later = extract_json_object s in
      elim (kind_of (code c)) [
        | opening ↦
            attempt (elim (scan 0 outside s) [ none ↦ none | some t ↦ some (String.◌∷◌ c t) ]) later
        | _ ↦ later
      ]

  -- `_parse_action`
  unfoldable pub parse_action : String → Option Fields
  parse_action content = elim (extract_json_object content) [
    | none ↦ none
    | some d ↦ if has "action" d then some d else none
  ]
