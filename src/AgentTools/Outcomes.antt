-- ===== src/AgentTools/Outcomes.antt =====
-- When a sandboxed tool has succeeded, and what the audit log can tell of its arguments.
use private_ai_workspace_eks.Prelude.{
  ℕ, zero, suc, String, ◌≡◌, refl, ap, Bool, true, false, Option, none, some, [], ◌∷◌, string_eq,
  if◌then◌else◌, Bool-cases, inl, inr, ◌≢◌,
}
use private_ai_workspace_eks.Prelude.Text.{is_empty, len}
use private_ai_workspace_eks.Json.{
  Json, pos, negsuc, Items, nil, cons, Fields, end, field, Python, null, bool, int, float, str, arr,
  obj, dict, get, truthy, is_text, type_name, size, item_count, field_count,
}
use private_ai_workspace_eks.AgentTools.{
  tool_error, Process, not_spawned, timed_out, exited, classify_output, conclude, execute,
  arg_shape, audit,
}

failure-ne-success :
    (unknown : Bool)
    → (if unknown
        then record tool_error { result_class = str "unknown_tool"; exit_code = int (pos 0) }
        else record tool_error { exit_code = int (pos 0) }).result_class
      ≢ str "success"
failure-ne-success true = λ e. cc
failure-ne-success false = λ e. cc

classify_output-success :
    (v : Option Json)
    → (classify_output v).result_class ≡ str "success"
    → (d : Fields) × (v ≡ some (obj d)) × (truthy (get "ok" d) ≡ true)
unfolding classify_output
classify_output-success (some (obj d)) h = elim (Bool-cases (truthy (get "ok" d))) [
  | inl t ↦ (d, refl, t)
  | inr f ↦
      absurd
        (failure-ne-success (is_text "unknown_tool" (get "error" d)) (rw (f, classify_output) at h))
]
classify_output-success none h = cc
classify_output-success (some v) h = cc

module _ ⦃py : Python⦄ where
  -- The child ended with 0 and printed an object whose `ok` is true.
  abbrev pub Succeeds : Process → Type 0
  Succeeds p =
      (out : String) × (d : Fields) × (p ≡ exited (pos 0) out)
      × (py.loads (if is_empty out then "{}" else out) ≡ some (obj d))
      × (truthy (get "ok" d) ≡ true)

  conclude-success : (p : Process) → (conclude p).result_class ≡ str "success" → Succeeds p
  unfolding conclude
  conclude-success not_spawned h = cc
  conclude-success timed_out h = cc
  conclude-success (exited (pos zero) out) h =
      let (d, e, t) = classify_output-success (py.loads (if is_empty out then "{}" else out)) h in
      (out, d, refl, e, t)
  conclude-success (exited (pos (suc n)) out) h = cc
  conclude-success (exited (negsuc n) out) h = cc

  -- A tool is reported as a success only if its process ended with 0, in time, and printed a JSON
  -- object whose `ok` is true.
  pub execute-success :
      (launch : String → Process) (tool : String) (arguments : Fields)
      → (execute launch tool arguments).result_class ≡ str "success"
      → Succeeds (launch (py.dumps (dict (("tool", str tool) ∷ ("arguments", obj arguments) ∷ []))))
  unfolding execute
  execute-success launch tool arguments h = conclude-success _ h

-- The text of as many `x`.
pub mask : ℕ → String
mask zero = ""
mask (suc n) = String.◌∷◌ "x" (mask n)

-- As many `None`, and as many fields with no name.
pub mask_items : Items → Items
mask_items nil = nil
mask_items (cons v r) = cons null (mask_items r)

pub mask_fields : Fields → Fields
mask_fields end = end
mask_fields (field k v r) = field "" null (mask_fields r)

-- A value with its content taken out.
abbrev pub mask_value : Json → Json
mask_value null = null
mask_value (bool b) = bool false
mask_value (int n) = int (pos 0)
mask_value (float f) = float "0.0"
mask_value (str s) = str (mask (len s))
mask_value (arr l) = arr (mask_items l)
mask_value (obj d) = obj (mask_fields d)

pub redact : Fields → Fields
redact end = end
redact (field k v r) = field k (mask_value v) (redact r)

len-mask : (n : ℕ) → len (mask n) ≡ n
unfolding len mask
len-mask zero = refl
len-mask (suc n) = ap suc (len-mask n)

item_count-mask_items : (l : Items) → item_count (mask_items l) ≡ item_count l
unfolding item_count mask_items
item_count-mask_items nil = refl
item_count-mask_items (cons v r) = ap suc (item_count-mask_items r)

field_count-mask_fields : (d : Fields) → field_count (mask_fields d) ≡ field_count d
unfolding field_count mask_fields
field_count-mask_fields end = refl
field_count-mask_fields (field k v r) = ap suc (field_count-mask_fields r)

shape-mask_value :
    (v : Json)
    → ◌≡◌ {A = String × Option ℕ}
        (type_name (mask_value v), size (mask_value v))
        (type_name v, size v)
unfolding type_name size
shape-mask_value null = refl
shape-mask_value (bool b) = refl
shape-mask_value (int n) = refl
shape-mask_value (float f) = refl
shape-mask_value (str s) = rw (len-mask (len s))
shape-mask_value (arr l) = rw (item_count-mask_items l)
shape-mask_value (obj d) = rw (field_count-mask_fields d)

arg_shape-redact : (d : Fields) → arg_shape (redact d) ≡ arg_shape d
unfolding arg_shape redact
arg_shape-redact end = refl
arg_shape-redact (field k v r) = rw (shape-mask_value v, arg_shape-redact r)

-- The audit log has the same entry for arguments whose content was taken out: each text replaced
-- by as many `x`, each number by 0, each member of a list or a dict by `None`.
pub audit-redact :
    (who : String × String) (tool : String) (arguments : Fields) (decision : String)
    → audit who tool (redact arguments) decision ≡ audit who tool arguments decision
unfolding audit
audit-redact who tool arguments decision = rw (arg_shape-redact arguments)
