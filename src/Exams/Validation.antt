-- ===== src/Exams/Validation.antt =====
-- The whole-test rules of app/services/question_validation.py. The messages are the constructors of
-- `Problem`; a question is its section and its position.
pub mod Fields
pub mod Complete
pub mod Sections
use testify.Common.{
  ℕ, Bool, Option, none, some, true, false, List, [], ◌∷◌, ◌++◌, ◌==◌, ◌&&◌, ◌||◌, leb, length,
  count, if◌then◌else◌,
}
use testify.Models.{Section, rus_tili, pedagogik, kasbiy, section_eq}

abbrev pub Placed : Type 0
Placed = Section × ℕ

abbrev pub expected_row_count : ℕ
expected_row_count = 50

-- `section_for_position`, over the entries of `SECTION_RANGES`
unfoldable pub section_for_position : ℕ → Option Section
section_for_position position =
    if leb 1 position && leb position 35
    then some rus_tili
    else if leb 36 position && leb position 45
    then some pedagogik
    else if leb 46 position && leb position 50
    then some kasbiy
    else none

pub data Problem : Type 0 where
  wrong_count repeated_position : ℕ → Problem
  wrong_section_count : Section → ℕ → ℕ → Problem

abbrev pub is_seen : ℕ → List ℕ → Bool
is_seen position [] = false
is_seen position (p ∷ seen) = position == p || is_seen position seen

-- The loop over the questions with the set `seen`.
unfoldable pub repeats : List ℕ → List Placed → List Problem
repeats seen [] = []
repeats seen ((section, position) ∷ questions) =
    let rest = repeats (position ∷ seen) questions in
    if is_seen position seen then repeated_position position ∷ rest else rest

abbrev pub in_section_of : Section → Placed → Bool
in_section_of section (s, position) = section_eq section s

-- One round of the loop over `SECTION_RANGES`.
abbrev pub section_problem : List Placed → Section → ℕ → List Problem
section_problem questions section expected =
    let actual = count (in_section_of section) questions in
    if actual == expected then [] else wrong_section_count section expected actual ∷ []

abbrev pub count_problem : List Placed → List Problem
count_problem questions =
    if length questions == expected_row_count then [] else wrong_count (length questions) ∷ []

abbrev pub section_problems : List Placed → List Problem
section_problems questions =
    if length questions == expected_row_count
    then section_problem questions rus_tili 35
      ++ (section_problem questions pedagogik 10 ++ section_problem questions kasbiy 5)
    else []

unfoldable pub validate_test_completeness : List Placed → List Problem
validate_test_completeness questions =
    count_problem questions ++ (repeats [] questions ++ section_problems questions)
