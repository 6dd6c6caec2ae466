-- ===== src/Prelude/Text.antt =====
-- Python's text operations: `len`, `strip`, `split`, `in`, slices, and `str` of a number.
use Prim.Native.Nat.{ℕ, zero, suc, ◌+◌}
use Prim.Native.Char.{Char, code}
use Prim.Native.String.{String}
use mathlib.Core.Bool.{Bool, true, false, ◌&&◌, ◌||◌}
use mathlib.Core.Path.{◌≡◌}
use native.Mathlib.Omega.{arith}
use mathlib.Core.List.{List, [], ◌∷◌}
use private_ai_workspace_eks.Prelude.Equality.{◌==◌, nat_eq}
use private_ai_workspace_eks.Prelude.Tests.{leb, if◌then◌else◌}

abbrev pub is_empty : String → Bool
is_empty String.[] = true
is_empty (String.◌∷◌ c s) = false

-- `len(s)`: the number of code points
unfoldable pub len : String → ℕ
len String.[] = 0
len (String.◌∷◌ c s) = suc (len s)

-- `s[:n]`
unfoldable pub slice_to : ℕ → String → String
slice_to zero s = String.[]
slice_to (suc n) String.[] = String.[]
slice_to (suc n) (String.◌∷◌ c s) = String.◌∷◌ c (slice_to n s)

pub len-slice_to : (n : ℕ) (s : String) → leb (len (slice_to n s)) n ≡ true
unfolding len slice_to
len-slice_to zero s = ground arith
len-slice_to (suc n) String.[] = ground arith
len-slice_to (suc n) (String.◌∷◌ c s) = let rest = len-slice_to n s in ground arith

abbrev pub between : ℕ → ℕ → ℕ → Bool
between lo hi n = leb lo n && leb n hi

-- `str.isspace` of one character
unfoldable pub is_space : Char → Bool
unfolding nat_eq
is_space c =
    let n = code c in
    between 9 13 n
    || between 28 32 n
    || n == 0x85
    || n == 0xa0
    || n == 0x1680
    || between 0x2000 0x200a n
    || n == 0x2028
    || n == 0x2029
    || n == 0x202f
    || n == 0x205f
    || n == 0x3000

unfoldable pub lstrip : String → String
unfolding is_space
lstrip String.[] = String.[]
lstrip (String.◌∷◌ c s) = let rest = lstrip s in if is_space c then rest else String.◌∷◌ c s

unfoldable pub rstrip : String → String
unfolding is_space
rstrip String.[] = String.[]
rstrip (String.◌∷◌ c s) =
    let rest = rstrip s in if is_space c && is_empty rest then String.[] else String.◌∷◌ c rest

-- `s.strip()`
unfoldable pub strip : String → String
unfolding lstrip rstrip
strip s = rstrip (lstrip s)

-- The first word of a text that does not begin with a space, and what follows the word.
unfoldable pub span_word : String → String × String
unfolding is_space
span_word String.[] = (String.[], String.[])
span_word (String.◌∷◌ c s) =
    let (w, rest) = span_word s in
    if is_space c then (String.[], String.◌∷◌ c s) else (String.◌∷◌ c w, rest)

abbrev pub parts_of : String → String → List String
parts_of String.[] rest = []
parts_of w String.[] = w ∷ []
parts_of w rest = w ∷ rest ∷ []

-- `s.split(None, 1)`
unfoldable pub split_word : String → List String
unfolding span_word lstrip
split_word s = let (w, rest) = span_word (lstrip s) in parts_of w (lstrip rest)

-- `ch in s`, for a character given by its code point
unfoldable pub has_char : ℕ → String → Bool
unfolding nat_eq
has_char n String.[] = false
has_char n (String.◌∷◌ c s) = code c == n || has_char n s

-- `s.split(ch, 1)[0]` and, where `ch in s`, `s.split(ch, 1)[1]`
unfoldable pub before : ℕ → String → String
unfolding nat_eq
before n String.[] = String.[]
before n (String.◌∷◌ c s) =
    let rest = before n s in if code c == n then String.[] else String.◌∷◌ c rest

unfoldable pub after : ℕ → String → String
unfolding nat_eq
after n String.[] = String.[]
after n (String.◌∷◌ c s) = let rest = after n s in if code c == n then s else rest

-- `len(s.encode("utf-8"))`
unfoldable pub utf8_len : String → ℕ
utf8_len String.[] = 0
utf8_len (String.◌∷◌ c s) =
    let n = code c in
    (if leb n 0x7f then 1 else if leb n 0x7ff then 2 else if leb n 0xffff then 3 else 4)
    + utf8_len s
