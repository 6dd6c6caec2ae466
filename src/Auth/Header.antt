-- ===== src/Auth/Header.antt =====
-- Headers `<scheme> <token>`, as `split`, `strip` and `_extract_tenant_id` take them apart.
use Prim.Native.Char.{Char, code}
use text.Mathlib.TextLemmas.{nil-append, cons-append}
use private_ai_workspace_eks.Prelude.{
  ℕ, String, ◌<>◌, ◌≡◌, refl, true, false, [], ◌∷◌, arith, nat_eq,
}
use private_ai_workspace_eks.Prelude.Text.{
  is_empty, is_space, strip, lstrip, rstrip, span_word, split_word, has_char, after,
}

-- No space stands in the text.
abbrev pub IsWord : String → Type 0
IsWord String.[] = Unit
IsWord (String.◌∷◌ c s) = (is_space c ≡ false) × IsWord s

span_word_of_IsWord :
    (w t : String) → IsWord w → span_word (w <> String.◌∷◌ " " t) ≡ (w, String.◌∷◌ " " t)
unfolding span_word
span_word_of_IsWord String.[] t h = rw nil-append
span_word_of_IsWord (String.◌∷◌ c w) t h =
    rw cons-append (rw (span_word_of_IsWord w t h.1) (rw h.0))

lstrip_of_IsWord : (w : String) → IsWord w → lstrip w ≡ w
unfolding lstrip
lstrip_of_IsWord String.[] h = refl
lstrip_of_IsWord (String.◌∷◌ c w) h = rw h.0

rstrip_of_IsWord : (w : String) → IsWord w → rstrip w ≡ w
unfolding rstrip
rstrip_of_IsWord String.[] h = refl
rstrip_of_IsWord (String.◌∷◌ c w) h = rw (rstrip_of_IsWord w h.1) (rw h.0)

pub strip_of_IsWord : (w : String) → IsWord w → strip w ≡ w
unfolding strip
strip_of_IsWord w h = rw (lstrip_of_IsWord w h, rstrip_of_IsWord w h)

lstrip-append :
    (w t : String)
    → is_empty w ≡ false
    → IsWord w
    → lstrip (w <> String.◌∷◌ " " t) ≡ w <> String.◌∷◌ " " t
unfolding lstrip
lstrip-append String.[] t e h = cc
lstrip-append (String.◌∷◌ c w) t e h = rw cons-append (rw h.0)

lstrip_space : (t : String) → lstrip (String.◌∷◌ " " t) ≡ lstrip t
unfolding lstrip
lstrip_space t = refl

-- A header of two words is split into them.
pub split_word_lem :
    (w t : String)
    → is_empty w ≡ false
    → IsWord w
    → is_empty t ≡ false
    → IsWord t
    → split_word (w <> String.◌∷◌ " " t) ≡ w ∷ t ∷ []
unfolding split_word
split_word_lem String.[] t e h e' h' = cc
split_word_lem w String.[] e h e' h' = cc
split_word_lem (String.◌∷◌ c w) (String.◌∷◌ d t) e h e' h' = rw (
  lstrip-append (String.◌∷◌ c w) (String.◌∷◌ d t) e h,
  span_word_of_IsWord (String.◌∷◌ c w) (String.◌∷◌ d t) h,
  lstrip_space (String.◌∷◌ d t),
  lstrip_of_IsWord (String.◌∷◌ d t) h',
)

-- Behind the first `n` stands what follows it.
pub after_lem :
    (n : ℕ) (u d : String) (c : Char)
    → has_char n u ≡ false
    → code c ≡ n
    → after n (u <> String.◌∷◌ c d) ≡ d
unfolding after has_char
after_lem n String.[] d c h e = rw nil-append (ground arith)
after_lem n (String.◌∷◌ b u) d c h e = rw cons-append (ground (arith, after_lem n u d c))

pub has_char_lem :
    (n : ℕ) (u d : String) (c : Char) → code c ≡ n → has_char n (u <> String.◌∷◌ c d) ≡ true
unfolding has_char
has_char_lem n String.[] d c e = rw nil-append (ground arith)
has_char_lem n (String.◌∷◌ b u) d c e = rw cons-append (ground (arith, has_char_lem n u d c))

pub is_empty-append : (u d : String) (c : Char) → is_empty (u <> String.◌∷◌ c d) ≡ false
is_empty-append String.[] d c = rw nil-append
is_empty-append (String.◌∷◌ b u) d c = rw cons-append
