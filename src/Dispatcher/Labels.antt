-- ===== src/Dispatcher/Labels.antt =====
-- The names of jobs are labels that Kubernetes takes.
use Prim.Native.Char.{code}
use private_ai_workspace_eks.Prelude.{
  ℕ, zero, suc, ◌≤◌, String, ◌≡◌, refl, Bool, true, false, ◌&&◌, arith, Bool-cases, inl, inr,
  nat_eq,
}
use private_ai_workspace_eks.Prelude.Text.{is_empty, len, slice_to, len-slice_to}
use private_ai_workspace_eks.Json.{Python}
use private_ai_workspace_eks.Dispatcher.Names.{
  is_safe, is_dash, sub_dash, lstrip_by, rstrip_by, strip_by, or_default, safe_name,
}

module _ (q : ℕ → Bool) where
  abbrev pub AllCodes : String → Type 0
  AllCodes String.[] = Unit
  AllCodes (String.◌∷◌ c s) = (q (code c) ≡ true) × AllCodes s

  sub_dash-AllCodes : (inside : Bool) (s : String) → q 45 ≡ true → AllCodes (sub_dash q inside s)
  unfolding sub_dash
  sub_dash-AllCodes inside String.[] h = tt
  sub_dash-AllCodes inside (String.◌∷◌ c s) h = elim (Bool-cases (q (code c))) [
    | inl allowed ↦ rw allowed (allowed, sub_dash-AllCodes false s h)
    | inr other ↦ elim (Bool-cases inside) [
      | inl within ↦ rw (other, within) (sub_dash-AllCodes true s h)
      | inr first ↦ rw (other, first) (h, sub_dash-AllCodes true s h)
    ]
  ]

  slice_to-AllCodes : (n : ℕ) (s : String) → AllCodes s → AllCodes (slice_to n s)
  unfolding slice_to
  slice_to-AllCodes zero s h = tt
  slice_to-AllCodes (suc n) String.[] h = tt
  slice_to-AllCodes (suc n) (String.◌∷◌ c s) h = (h.0, slice_to-AllCodes n s h.1)

  module _ (p : ℕ → Bool) where
    lstrip_by-AllCodes : (s : String) → AllCodes s → AllCodes (lstrip_by p s)
    unfolding lstrip_by
    lstrip_by-AllCodes String.[] h = tt
    lstrip_by-AllCodes (String.◌∷◌ c s) h = elim (Bool-cases (p (code c))) [
      | inl gone ↦ rw gone (lstrip_by-AllCodes s h.1)
      | inr kept ↦ rw kept h
    ]

    rstrip_by-AllCodes : (s : String) → AllCodes s → AllCodes (rstrip_by p s)
    unfolding rstrip_by
    rstrip_by-AllCodes String.[] h = tt
    rstrip_by-AllCodes (String.◌∷◌ c s) h =
        elim (Bool-cases (p (code c) && is_empty (rstrip_by p s))) [
          | inl gone ↦ rw gone tt
          | inr kept ↦ rw kept (h.0, rstrip_by-AllCodes s h.1)
        ]

module _ (p : ℕ → Bool) where
  -- The text does not begin with a character of the class.
  abbrev pub HasNoLead : String → Type 0
  HasNoLead String.[] = Unit
  HasNoLead (String.◌∷◌ c s) = p (code c) ≡ false

  lstrip_by-HasNoLead : (s : String) → HasNoLead (lstrip_by p s)
  unfolding lstrip_by
  lstrip_by-HasNoLead String.[] = tt
  lstrip_by-HasNoLead (String.◌∷◌ c s) = elim (Bool-cases (p (code c))) [
    | inl gone ↦ rw gone (lstrip_by-HasNoLead s)
    | inr kept ↦ rw kept kept
  ]

  rstrip_by-HasNoLead : (s : String) → HasNoLead s → HasNoLead (rstrip_by p s)
  unfolding rstrip_by
  rstrip_by-HasNoLead String.[] h = tt
  rstrip_by-HasNoLead (String.◌∷◌ c s) h = rw h h

  rstrip_by-rstrip_by : (s : String) → rstrip_by p (rstrip_by p s) ≡ rstrip_by p s
  unfolding rstrip_by
  rstrip_by-rstrip_by String.[] = refl
  rstrip_by-rstrip_by (String.◌∷◌ c s) =
      elim (Bool-cases (p (code c) && is_empty (rstrip_by p s))) [
        | inl gone ↦ rw gone refl
        | inr kept ↦ rw (kept, rstrip_by-rstrip_by s, kept) refl
      ]

  len-lstrip_by : (s : String) → len (lstrip_by p s) ≤ len s
  unfolding lstrip_by len
  len-lstrip_by String.[] = omega arith
  len-lstrip_by (String.◌∷◌ c s) = let rest = len-lstrip_by s in ground arith

  len-rstrip_by : (s : String) → len (rstrip_by p s) ≤ len s
  unfolding rstrip_by len
  len-rstrip_by String.[] = omega arith
  len-rstrip_by (String.◌∷◌ c s) = let rest = len-rstrip_by s in ground arith

-- A label of at most 40 characters of `[a-z0-9-]`, with no dash at either end.
pub record IsLabel (v : String) : Type 0 where
  pub nonempty : is_empty v ≡ false
  pub short : len v ≤ 40
  pub safe : AllCodes is_safe v
  pub no_lead : HasNoLead is_dash v
  pub no_trail : rstrip_by is_dash v ≡ v

or_default-IsLabel :
    (v : String)
    → len v ≤ 40
    → AllCodes is_safe v
    → HasNoLead is_dash v
    → rstrip_by is_dash v ≡ v
    → IsLabel (or_default v "x")
unfolding len rstrip_by nat_eq
or_default-IsLabel String.[] a b c d = record {
  nonempty = refl;
  short = omega arith;
  safe = (refl, tt);
  no_lead = refl;
  no_trail = refl;
}
or_default-IsLabel (String.◌∷◌ c s) short safe lead trail = record {
  nonempty = refl;
  short = short;
  safe = safe;
  no_lead = lead;
  no_trail = trail;
}

module _ ⦃py : Python⦄ where
  -- Whatever the text, `safe_name` makes of it a label of at least one and at most 40 characters,
  -- lower-case letters, digits and dashes, with no dash at either end.
  pub safe_name-IsLabel : (value : String) → IsLabel (safe_name value)
  unfolding safe_name nat_eq
  safe_name-IsLabel value =
      let t = strip_by is_dash (sub_dash is_safe false (py.lower value)) in
      let cut = slice_to 40 t in
      let codes =
        rstrip_by-AllCodes is_safe is_dash
          (lstrip_by is_dash (sub_dash is_safe false (py.lower value)))
          (lstrip_by-AllCodes is_safe is_dash (sub_dash is_safe false (py.lower value))
            (sub_dash-AllCodes is_safe false (py.lower value) refl)) in
      let left = len-lstrip_by is_dash cut in
      let right = len-rstrip_by is_dash (lstrip_by is_dash cut) in
      let bound = len-slice_to 40 t in
      or_default-IsLabel (strip_by is_dash cut) (ground arith)
        (rstrip_by-AllCodes is_safe is_dash (lstrip_by is_dash cut)
          (lstrip_by-AllCodes is_safe is_dash cut (slice_to-AllCodes is_safe 40 t codes)))
        (rstrip_by-HasNoLead is_dash (lstrip_by is_dash cut) (lstrip_by-HasNoLead is_dash cut))
        (rstrip_by-rstrip_by is_dash (lstrip_by is_dash cut))
