-- ===== src/AgentLoop/Grammar.antt =====
-- Which texts the search of AgentLoop/Extract takes for an object, by a grammar of its own.
use Prim.Native.Char.{Char, code}
use private_ai_workspace_eks.Prelude.{
  ℕ, suc, String, ◌<>◌, ◌≡◌, ◌≢◌, refl, ◌∙◌, arith, some, List, [], ◌∷◌, nat_eq,
}
use text.Mathlib.TextLemmas.{nil-append, cons-append}
use private_ai_workspace_eks.Json.{Fields, Python, obj}
use private_ai_workspace_eks.AgentLoop.Extract.{
  Kind, quote, backslash, opening, plain, kind_of, Mode, outside, in_str, escaped, on, see, scan,
  judge, attempt, extract_json_object,
}

-- A character of a string literal: one that is neither a quote nor a backslash, or any character
-- behind a backslash.
pub data Letter : Type 0 where
  letter : (c : Char) → kind_of (code c) ≢ quote → kind_of (code c) ≢ backslash → Letter
  escape : Char → Letter

-- What stands between two braces: characters of no meaning, string literals, and nested braces.
pub data Body : Type 0 where
  end : Body
  other : (c : Char) → kind_of (code c) ≡ plain → Body → Body
  literal : List Letter → Body → Body
  nested : Body → Body → Body

-- The text of a literal or a body, in front of a text.
unfoldable pub write_letters : List Letter → String → String
write_letters [] t = t
write_letters (letter c p q ∷ l) t = String.◌∷◌ c (write_letters l t)
write_letters (escape c ∷ l) t = String.◌∷◌ "\\" (String.◌∷◌ c (write_letters l t))

unfoldable pub write : Body → String → String
unfolding write_letters
write end t = t
write (other c p b) t = String.◌∷◌ c (write b t)
write (literal l b) t = String.◌∷◌ "\"" (write_letters l (String.◌∷◌ "\"" (write b t)))
write (nested b r) t = String.◌∷◌ "{" (write b (String.◌∷◌ "}" (write r t)))

-- The scan finds a candidate in a text.
abbrev Finds : ℕ → Mode → String → String → Type 0
Finds d m s t = scan d m s ≡ some t

scan-on :
    (d d' : ℕ) (m m' : Mode) (c : Char) (s t : String)
    → see (kind_of (code c)) d m ≡ on d' m'
    → Finds d' m' s t
    → Finds d m (String.◌∷◌ c s) (String.◌∷◌ c t)
unfolding scan
scan-on d d' m m' c s t e h = rw (e, scan) (rw (h, scan))

see-letter : (k : Kind) (d : ℕ) → k ≢ quote → k ≢ backslash → see k d in_str ≡ on d in_str
unfolding see
see-letter k d p q = ground arith

see-escaped : (k : Kind) (d : ℕ) → see k d escaped ≡ on d in_str
unfolding see
see-escaped k d = ground arith

see-plain : (k : Kind) (d : ℕ) → k ≡ plain → see k d outside ≡ on d outside
unfolding see
see-plain k d h = rw h

scan-write_letters :
    (d : ℕ) (l : List Letter) (s t : String)
    → Finds d in_str s t
    → Finds d in_str (write_letters l s) (write_letters l t)
unfolding write_letters see kind_of nat_eq
scan-write_letters d [] s t h = h
scan-write_letters d (letter c p q ∷ l) s t h =
    scan-on d d in_str in_str c (write_letters l s) (write_letters l t)
      (see-letter (kind_of (code c)) d p q) (scan-write_letters d l s t h)
scan-write_letters d (escape c ∷ l) s t h =
    scan-on d d in_str escaped "\\" (String.◌∷◌ c (write_letters l s))
      (String.◌∷◌ c (write_letters l t)) refl
      (scan-on d d escaped in_str c (write_letters l s) (write_letters l t)
        (see-escaped (kind_of (code c)) d) (scan-write_letters d l s t h))

-- A body is read to its end, whatever the depth.
scan-write :
    (d : ℕ) (b : Body) (s t : String)
    → Finds d outside s t
    → Finds d outside (write b s) (write b t)
unfolding write see kind_of nat_eq
scan-write d end s t h = h
scan-write d (other c p b) s t h =
    scan-on d d outside outside c (write b s) (write b t) (see-plain (kind_of (code c)) d p)
      (scan-write d b s t h)
scan-write d (literal l b) s t h = scan-on d d outside in_str "\"" _ _ refl (
    scan-write_letters d l _ _
      (scan-on d d in_str outside "\"" (write b s) (write b t) refl (scan-write d b s t h)))
scan-write d (nested b r) s t h = scan-on d (suc d) outside outside "{" _ _ refl (
    scan-write (suc d) b _ _
      (scan-on (suc d) d outside outside "}" (write r s) (write r t) refl (scan-write d r s t h)))

-- The text of an object, in front of a text.
abbrev pub braced : Body → String → String
braced b t = String.◌∷◌ "{" (write b (String.◌∷◌ "}" t))

scan-braced : (b : Body) (t : String) → Finds 0 outside (write b (String.◌∷◌ "}" t)) (write b "}")
unfolding scan see kind_of nat_eq
scan-braced b t = scan-write 0 b (String.◌∷◌ "}" t) "}" refl

-- No opening brace stands in the text.
abbrev pub HasNoBrace : String → Type 0
HasNoBrace String.[] = Unit
HasNoBrace (String.◌∷◌ c s) = (kind_of (code c) ≢ opening) × HasNoBrace s

module _ ⦃py : Python⦄ where
  extract-append :
      (p s : String) → HasNoBrace p → extract_json_object (p <> s) ≡ extract_json_object s
  unfolding extract_json_object
  extract-append String.[] s h = rw nil-append
  extract-append (String.◌∷◌ c p) s h = rw cons-append (ground (arith, extract-append p s h.1))

  extract-braced :
      (b : Body) (t : String) (d : Fields)
      → py.loads (braced b "") ≡ some (obj d)
      → extract_json_object (braced b t) ≡ some d
  unfolding extract_json_object attempt judge kind_of nat_eq
  extract-braced b t d h = rw (scan-braced b t) (rw h)

  -- Prose without an opening brace, then an object that the JSON parser reads, then anything: the
  -- search finds that object.
  pub extract_json_object-braced :
      (prose : String) (b : Body) (rest : String) (d : Fields)
      → HasNoBrace prose
      → py.loads (braced b "") ≡ some (obj d)
      → extract_json_object (prose <> braced b rest) ≡ some d
  extract_json_object-braced prose b rest d plain_prose h =
      extract-append prose (braced b rest) plain_prose ∙ extract-braced b rest d h
