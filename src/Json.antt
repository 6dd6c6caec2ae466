-- ===== src/Json.antt =====
-- The values of Python's `json` module. A `dict` is a list of fields in insertion order.
use private_ai_workspace_eks.Prelude.{
  ◌+◌, ◌-◌, ltb, leb, ℕ, zero, suc, String, Bool, true, false, Option, none, some, List, [], ◌∷◌,
  ◌==◌, string_eq, if◌then◌else◌,
}
use private_ai_workspace_eks.Prelude.Text.{is_empty, len}

-- `negsuc n` is -(n + 1).
pub data ℤ : Type 0 where
  pos : ℕ → ℤ
  negsuc : ℕ → ℤ

abbrev pub pos_part : ℤ → ℕ
pos_part (pos n) = n
pos_part (negsuc n) = 0

abbrev pub neg_part : ℤ → ℕ
neg_part (pos n) = 0
neg_part (negsuc n) = suc n

abbrev sub_ℕ : ℕ → ℕ → ℤ
sub_ℕ a b = if leb b a then pos (a - b) else negsuc (b - a - 1)

infixl 65 ◌+ℤ◌
unfoldable pub ◌+ℤ◌ : ℤ → ℤ → ℤ
a +ℤ b = sub_ℕ (pos_part a + pos_part b) (neg_part a + neg_part b)

abbrev pub ltb_ℤ : ℤ → ℤ → Bool
ltb_ℤ a b = ltb (pos_part a + neg_part b) (pos_part b + neg_part a)

-- A float is kept by its `repr`: the program asks only for its type and whether it is zero.
mutual
  pub data Json : Type 0 where
    null : Json
    bool : Bool → Json
    int : ℤ → Json
    float : String → Json
    str : String → Json
    arr : Items → Json
    obj : Fields → Json

  pub data Items : Type 0 where
    nil : Items
    cons : Json → Items → Items

  pub data Fields : Type 0 where
    end : Fields
    field : String → Json → Fields → Fields

-- `d.get(k)`, where a missing key reads as `None`
unfoldable pub get : String → Fields → Json
get k end = null
get k (field j v r) = let rest = get k r in if k == j then v else rest

-- `k in d`
unfoldable pub has : String → Fields → Bool
has k end = false
has k (field j v r) = let rest = has k r in if k == j then true else rest

-- `d.get(k, default)`
unfoldable pub get_or : String → Json → Fields → Json
get_or k default end = default
get_or k default (field j v r) = let rest = get_or k default r in if k == j then v else rest

abbrev pub fields : List (String × Json) → Fields
fields [] = end
fields ((k, v) ∷ r) = field k v (fields r)

-- A `dict` display.
abbrev pub dict : List (String × Json) → Json
dict l = obj (fields l)

abbrev pub items : List Json → Items
items [] = nil
items (v ∷ r) = cons v (items r)

abbrev pub as_dict : Json → Option Fields
as_dict (obj d) = some d
as_dict _ = none

abbrev pub as_str : Json → Option String
as_str (str s) = some s
as_str _ = none

-- `None` or the value
abbrev pub opt_str : Option String → Json
opt_str none = null
opt_str (some s) = str s

abbrev pub opt_int : Option ℤ → Json
opt_int none = null
opt_int (some n) = int n

unfoldable pub item_count : Items → ℕ
item_count nil = 0
item_count (cons v r) = suc (item_count r)

unfoldable pub field_count : Fields → ℕ
field_count end = 0
field_count (field k v r) = suc (field_count r)

-- `type(v).__name__`
unfoldable pub type_name : Json → String
type_name null = "NoneType"
type_name (bool b) = "bool"
type_name (int n) = "int"
type_name (float f) = "float"
type_name (str s) = "str"
type_name (arr l) = "list"
type_name (obj d) = "dict"

-- `len(v) if hasattr(v, "__len__") else None`
unfoldable pub size : Json → Option ℕ
unfolding len item_count field_count
size (str s) = some (len s)
size (arr l) = some (item_count l)
size (obj d) = some (field_count d)
size _ = none

-- What the program takes from Python's standard library: case folding of a text, the JSON parser
-- and printer, `str` of a value that is no text, and the ISO form of a time. `loads` is `none`
-- where `json.loads` raises; `pretty` is `json.dumps` with `indent=2`.
pub record Python : Type 0 where
  pub lower : String → String
  pub loads : String → Option Json
  pub dumps : Json → String
  pub pretty : Json → String
  pub display : Json → String
  pub isoformat : ℕ → String

-- `str(v)`
unfoldable pub to_str : ⦃py : Python⦄ → Json → String
to_str (str s) = s
to_str ⦃py⦄ null = py.display null
to_str ⦃py⦄ (bool b) = py.display (bool b)
to_str ⦃py⦄ (int n) = py.display (int n)
to_str ⦃py⦄ (float f) = py.display (float f)
to_str ⦃py⦄ (arr l) = py.display (arr l)
to_str ⦃py⦄ (obj d) = py.display (obj d)

-- `bool(v)`
unfoldable pub truthy : Json → Bool
truthy null = false
truthy (bool b) = b
truthy (int (pos zero)) = false
truthy (int n) = true
truthy (float f) = if f == "0.0" then false else if f == "-0.0" then false else true
truthy (str s) = if is_empty s then false else true
truthy (arr nil) = false
truthy (arr l) = true
truthy (obj end) = false
truthy (obj d) = true

-- `v == t` for a text `t`
abbrev pub is_text : String → Json → Bool
is_text t (str s) = s == t
is_text t _ = false
