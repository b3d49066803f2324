-- ===== src/Exams/Validation/Complete.antt =====
-- What a test without problems is.
use testify.Common.{
  ℕ, ◌≡◌, ◌↔◌, Bool, List, [], ◌∷◌, ◌++◌, ◌==◌, ◌||◌, length, count, Distinct, refl, arith,
  count-false,
}
use testify.Models.{rus_tili, pedagogik, kasbiy}
use testify.Exams.Validation.{
  Placed, is_seen, repeats, in_section_of, validate_test_completeness, count_problem,
  section_problems,
}

abbrev pub position_of : Placed → ℕ
position_of (section, position) = position

-- 50 questions at different positions, 35, 10 and 5 of them in the sections
pub record IsComplete (questions : List Placed) : Type 0 where
  pub fifty : length questions ≡ 50
  pub positions : Distinct position_of questions
  pub rus_tili_count : count (in_section_of rus_tili) questions ≡ 35
  pub pedagogik_count : count (in_section_of pedagogik) questions ≡ 10
  pub kasbiy_count : count (in_section_of kasbiy) questions ≡ 5

pub append-nil : {A : Type 0} (xs ys : List A) → xs ++ ys ≡ [] → (xs ≡ []) × (ys ≡ [])
append-nil [] ys h = (refl, h)
append-nil (x ∷ xs) ys h = ground arith

count-or_zero :
    {A : Type 0} (p q : A → Bool) (xs : List A)
    → (count (λ x. p x || q x) xs ≡ 0) ↔ ((count p xs ≡ 0) × (count q xs ≡ 0))
unfolding count
count-or_zero p q [] = ground arith
count-or_zero p q (x ∷ xs) = ground (arith, count-or_zero p q xs)

abbrev seen_of : List ℕ → Placed → Bool
seen_of seen q = is_seen (position_of q) seen

repeats-nil :
    (seen : List ℕ) (questions : List Placed)
    → (repeats seen questions ≡ [])
      ↔ (Distinct position_of questions × (count (seen_of seen) questions ≡ 0))
unfolding repeats count
repeats-nil seen [] = ground arith
repeats-nil seen ((s, p) ∷ questions) =
    let same = λ (q : Placed). position_of q == p in
    let split = count-or_zero same (seen_of seen) questions in
    let rest = repeats-nil (p ∷ seen) questions in
    ((λ h. ground (arith, rest.0, split.0)), λ h. ground (arith, rest.1, split.1, h))

-- `validate_test_completeness` reports no problem for exactly the lists of 50 questions at different
-- positions of which 35, 10 and 5 are in the three sections.
pub validate-IsComplete :
    (questions : List Placed) → (validate_test_completeness questions ≡ []) ↔ IsComplete questions
unfolding validate_test_completeness
validate-IsComplete questions = (
  (λ h.
      let (counted, later) =
        append-nil (count_problem questions) (repeats [] questions ++ section_problems questions)
          h in
      let (once, sections) = append-nil (repeats [] questions) (section_problems questions) later in
      let fifty : length questions ≡ 50 = ground (arith, counted) in
      record {
        fifty = fifty;
        positions = ((repeats-nil [] questions).0 once).0;
        rus_tili_count = ground (arith, sections, fifty);
        pedagogik_count = ground (arith, sections, fifty);
        kasbiy_count = ground (arith, sections, fifty);
      }),
  λ c.
      let unseen = count-false (seen_of []) questions (λ q. refl) in
      let once = (repeats-nil [] questions).1 (c.positions, unseen) in
      ground (arith, once, c.fifty, c.rus_tili_count, c.pedagogik_count, c.kasbiy_count),
)
