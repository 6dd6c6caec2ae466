-- ===== src/Retrieval/Chunks.antt =====
-- The chunks of a text hold its words, all and in order, and are not too long.
use text.Mathlib.TextLemmas.{nil-append, cons-append}
use mathlib.Core.Path.{subst}
use mathlib.Core.List.{append_assoc}
use private_ai_workspace_eks.Prelude.{
  ℕ, ◌+◌, ◌≤◌, String, ◌<>◌, ◌≡◌, refl, ap, ◌∙◌, inl, inr, List, [], ◌∷◌, ◌++◌, arith, ltb, map,
  Bool-cases, All,
}
use private_ai_workspace_eks.Prelude.Text.{len}
use private_ai_workspace_eks.Retrieval.{split, join, pack, chunk_text}

abbrev pub concat : List (List String) → List String
concat [] = []
concat (c ∷ cs) = c ++ concat cs

concat-pack :
    (limit : ℕ) (ws current : List String) (n : ℕ)
    → concat (pack limit ws current n) ≡ current ++ ws
unfolding pack
concat-pack limit [] [] n = refl
concat-pack limit [] (c ∷ current) n = refl
concat-pack limit (w ∷ ws) [] n = concat-pack limit ws (w ∷ []) (n + len w)
concat-pack limit (w ∷ ws) (c ∷ current) n = elim (Bool-cases (ltb limit (n + (len w + 1)))) [
  | inl full ↦ rw (full, pack) (ap (λ l. c ∷ current ++ l) (concat-pack limit ws (w ∷ []) (len w)))
  | inr room ↦
      rw (room, pack)
        (concat-pack limit ws (c ∷ current ++ (w ∷ [])) (n + (len w + 1))
          ∙ ap (λ l. c ∷ l) (append_assoc current (w ∷ []) ws))
]

len-append : (s t : String) → len (s <> t) ≡ len s + len t
unfolding len
len-append String.[] t = rw nil-append (omega arith)
len-append (String.◌∷◌ c s) t = rw cons-append (omega (arith, len-append s t))

-- A word behind others adds itself and a space.
len-join :
    (c : String) (ws : List String) (w : String)
    → len (join (c ∷ ws ++ (w ∷ []))) ≡ len (join (c ∷ ws)) + (len w + 1)
unfolding join len
len-join c [] w = omega (arith, len-append c (String.◌∷◌ " " w))
len-join c (v ∷ ws) w = omega (
  arith,
  len-append c (String.◌∷◌ " " (join (v ∷ ws ++ (w ∷ [])))),
  len-append c (String.◌∷◌ " " (join (v ∷ ws))),
  len-join v ws w,
)

-- At most `limit` characters, or a single word.
abbrev pub Fits : ℕ → List String → Type 0
Fits limit [] = Unit
Fits limit (w ∷ []) = Unit
Fits limit (w ∷ v ∷ ws) = len (join (w ∷ v ∷ ws)) ≤ limit

Fits-snoc :
    (limit : ℕ) (c : String) (ws : List String) (w : String)
    → len (join (c ∷ ws ++ (w ∷ []))) ≤ limit
    → Fits limit (c ∷ ws ++ (w ∷ []))
Fits-snoc limit c [] w h = h
Fits-snoc limit c (v ∷ ws) w h = h

pack-Fits :
    (limit : ℕ) (ws : List String) (c : String) (current : List String)
    → Fits limit (c ∷ current)
    → All (Fits limit) (pack limit ws (c ∷ current) (len (join (c ∷ current))))
unfolding pack join
pack-Fits limit [] c current h = (h, tt)
pack-Fits limit (w ∷ ws) c current h =
    elim (Bool-cases (ltb limit (len (join (c ∷ current)) + (len w + 1)))) [
      | inl full ↦ rw (full, pack) (h, pack-Fits limit ws w [] tt)
      | inr room ↦
          let longer = len-join c current w in
          rw (room, pack)
            (subst (λ n. All (Fits limit) (pack limit ws (c ∷ current ++ (w ∷ [])) n)) longer
              (pack-Fits limit ws c (current ++ (w ∷ []))
                (Fits-snoc limit c current w (ground arith))))
    ]

pack-AllFit : (limit : ℕ) (ws : List String) → All (Fits limit) (pack limit ws [] 0)
unfolding pack join
pack-AllFit limit [] = tt
pack-AllFit limit (w ∷ ws) =
    subst (λ n. All (Fits limit) (pack limit ws (w ∷ []) n)) (omega arith)
      (pack-Fits limit ws w [] tt)

-- The text is cut into the words of `split`, none lost, added or moved: the chunks are the joins of
-- lists of words that together are those words, and each has at most `limit` characters or is a
-- single word.
pub chunk_text-Fits :
    (limit : ℕ) (content : String)
    → (groups : List (List String)) × (chunk_text limit content ≡ map join groups)
      × (concat groups ≡ split content)
      × All (Fits limit) groups
unfolding chunk_text
chunk_text-Fits limit content = (
  pack limit (split content) [] 0,
  refl,
  concat-pack limit (split content) [] 0,
  pack-AllFit limit (split content),
)
