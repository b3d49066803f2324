-- ===== src/Utils/Phone.antt =====
-- `normalize_phone` of app/utils/text.py. `is_digit` is Python's `str.isdigit` of a character.
use testify.Common.{
  ℕ, Bool, Option, none, some, [], ◌∷◌, ◌++◌, Text, length, select, ◌==◌, if◌then◌else◌, All, ◌≡◌,
  true, refl, Bool-cases, inl, inr, arith,
}

-- "998"
abbrev pub country_code : Text
country_code = b'9' ∷ b'9' ∷ b'8' ∷ []

-- The digits, with the country code before nine of them.
abbrev with_country : Text → Text
with_country digits = if length digits == 9 then country_code ++ digits else digits

-- An empty text and `None` have no digits.
unfoldable pub normalize_phone : (ℕ → Bool) → Option Text → Text
normalize_phone is_digit none = []
normalize_phone is_digit (some raw) = with_country (select is_digit raw)

with_country_idem : (s : Text) → with_country (with_country s) ≡ with_country s
with_country_idem s = ground arith

module _ (is_digit : ℕ → Bool) where
  select-digits : (s : Text) → All (λ c. is_digit c ≡ true) (select is_digit s)
  unfolding select
  select-digits [] = tt
  select-digits (c ∷ s) = elim (Bool-cases (is_digit c)) [
    | inl e ↦ rw e (e, select-digits s)
    | inr e ↦ rw e (select-digits s)
  ]

  select-All : (s : Text) → All (λ c. is_digit c ≡ true) s → select is_digit s ≡ s
  unfolding select
  select-All [] h = refl
  select-All (c ∷ s) h = rw (h.0, select-All s h.1)

  with_country-digits :
      (s : Text)
      → is_digit b'9' ≡ true
      → is_digit b'8' ≡ true
      → All (λ c. is_digit c ≡ true) s
      → All (λ c. is_digit c ≡ true) (with_country s)
  with_country-digits s nine eight h = elim (Bool-cases (length s == 9)) [
    | inl e ↦ rw e (nine, (nine, (eight, h)))
    | inr e ↦ rw e h
  ]

  -- Normalizing a normalized number changes nothing, so a stored phone and a query that is
  -- normalized again are compared in one form. `is_digit` takes 9 and 8 for digits.
  pub normalize_phone_idem :
      (raw : Option Text)
      → is_digit b'9' ≡ true
      → is_digit b'8' ≡ true
      → let once = normalize_phone is_digit raw in normalize_phone is_digit (some once) ≡ once
  unfolding normalize_phone
  normalize_phone_idem none nine eight = unfold select in refl
  normalize_phone_idem (some raw) nine eight =
      let digits = select is_digit raw in
      rw
        (select-All (with_country digits)
          (with_country-digits digits nine eight (select-digits raw)))
        (with_country_idem digits)
