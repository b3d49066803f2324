-- ===== src/Utils/Strip.antt =====
-- Python's `str.strip`, which most inputs pass; `is_space` is `str.isspace` of a character.
use testify.Common.{
  ℕ, Bool, Text, [], ◌∷◌, ◌&&◌, true, false, if◌then◌else◌, ◌≡◌, refl, Bool-cases, inl, inr, ap,
  ◌∙◌, List,
}

-- An empty list or text is false in Python.
abbrev pub is_empty : {A : Type 0} → List A → Bool
is_empty [] = true
is_empty (a ∷ s) = false

unfoldable pub lstrip : (ℕ → Bool) → Text → Text
lstrip is_space [] = []
lstrip is_space (a ∷ s) = let rest = lstrip is_space s in if is_space a then rest else a ∷ s

unfoldable pub rstrip : (ℕ → Bool) → Text → Text
rstrip is_space [] = []
rstrip is_space (a ∷ s) =
    let rest = rstrip is_space s in if is_empty rest && is_space a then [] else a ∷ rest

unfoldable pub strip : (ℕ → Bool) → Text → Text
strip is_space text = rstrip is_space (lstrip is_space text)

module _ (is_space : ℕ → Bool) where
  rstrip_idem : (s : Text) → rstrip is_space (rstrip is_space s) ≡ rstrip is_space s
  unfolding rstrip
  rstrip_idem [] = refl
  rstrip_idem (a ∷ s) = elim (Bool-cases (is_empty (rstrip is_space s) && is_space a)) [
    | inl e ↦ rw e refl
    | inr e ↦ rw (e, rstrip_idem s, e) refl
  ]

  lstrip-rstrip :
      (s : Text)
      → lstrip is_space (rstrip is_space (lstrip is_space s)) ≡ rstrip is_space (lstrip is_space s)
  unfolding lstrip rstrip
  lstrip-rstrip [] = refl
  lstrip-rstrip (a ∷ s) = elim (Bool-cases (is_space a)) [
    | inl e ↦ rw e (lstrip-rstrip s)
    | inr e ↦ elim (Bool-cases (is_empty (rstrip is_space s))) [
      | inl empty ↦ rw (e, empty, e, e) refl
      | inr filled ↦ rw (e, filled, e) refl
    ]
  ]

  -- A stripped text is not changed by another strip.
  pub strip_idem : (s : Text) → strip is_space (strip is_space s) ≡ strip is_space s
  unfolding strip
  strip_idem s = ap (rstrip is_space) (lstrip-rstrip s) ∙ rstrip_idem (lstrip is_space s)
