-- ===== src/Examples/Validation.antt =====
-- A full test: 50 questions in the positions of their sections.
use testify.Common.{ℕ, zero, suc, ◌+◌, ◌≡◌, ◌↔◌, List, [], ◌∷◌, ◌++◌, some, true}
use testify.Models.{Section, rus_tili, pedagogik, kasbiy}
use testify.Exams.Repository.{in_range}
use testify.Exams.Validation.{Placed, section_for_position, validate_test_completeness}
use testify.Exams.Validation.Complete.{IsComplete, validate-IsComplete}
use testify.Exams.Validation.Sections.{section_for_position-in_range}

abbrev placed_from : Section → ℕ → ℕ → List Placed
placed_from section position zero = []
placed_from section position (suc n) = (section, position) ∷ placed_from section (position + 1) n

abbrev full_test : List Placed
full_test = placed_from rus_tili 1 35 ++ (placed_from pedagogik 36 10 ++ placed_from kasbiy 46 5)

validate-IsComplete_example : (validate_test_completeness full_test ≡ []) ↔ IsComplete full_test
validate-IsComplete_example = validate-IsComplete full_test

section_for_position-in_range_example :
    (section_for_position 36 ≡ some pedagogik) ↔ (in_range pedagogik 36 ≡ true)
section_for_position-in_range_example = section_for_position-in_range pedagogik 36
