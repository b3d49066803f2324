-- ===== src/Examples/Forms.antt =====
-- The editor's form on the small database and a draft.
use testify.Common.{ℕ, Bool, Text, Option, none, some, [], ◌∷◌, ◌==◌, if◌then◌else◌}
use testify.Models.{Database}
use testify.Exams.Repository.{new_draft}
use testify.Exams.Form.{
  title_key, text_key, a_key, b_key, c_key, d_key, correct_key, has_image_key, FormData,
}
use testify.Examples.Data.{database, exam, letter_a}

abbrev is_blank : ℕ → Bool
is_blank c = c == 32

abbrev same_case : Text → Text
same_case s = s

abbrev at_two : ℕ → Option Text
at_two pos = if pos == 2 then some letter_a else none

-- A title and the second card, every text of it "A".
abbrev one_card : FormData
one_card title_key = some letter_a
one_card (text_key pos) = at_two pos
one_card (a_key pos) = at_two pos
one_card (b_key pos) = at_two pos
one_card (c_key pos) = at_two pos
one_card (d_key pos) = at_two pos
one_card (correct_key pos) = at_two pos
one_card (has_image_key pos) = none

abbrev with_draft : Database
with_draft = record database { tests = exam ∷ new_draft 6 letter_a 3200 none ∷ [] }
