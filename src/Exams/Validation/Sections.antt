-- ===== src/Exams/Validation/Sections.antt =====
-- The section ranges of the code and those of the database.
use testify.Common.{ℕ, ◌≡◌, ◌↔◌, true, some, arith}
use testify.Models.{Section, rus_tili, pedagogik, kasbiy, other}
use testify.Exams.Repository.{in_range}
use testify.Exams.Validation.{section_for_position}

-- `section_for_position` gives a section for exactly the positions that the CHECK constraint
-- `ck_questions__section_position_consistent` allows in it.
pub section_for_position-in_range :
    (s : Section) (position : ℕ)
    → (section_for_position position ≡ some s) ↔ (in_range s position ≡ true)
unfolding section_for_position
section_for_position-in_range rus_tili position = ground arith
section_for_position-in_range pedagogik position = ground arith
section_for_position-in_range kasbiy position = ground arith
section_for_position-in_range (other name) position = ground arith
