-- ===== src/Examples/Exams.antt =====
-- Authoring on the small database and a draft.
use testify.Common.{◌≡◌, ◌≤◌, refl, some, none, [], ◌∷◌, arith, count, find, update, select, true}
use testify.Effects.{ok, outcome, after}
use testify.Models.{Test, Database, active, is_active}
use testify.Exams.Repository.{
  is_active_row, is_of_test, get_by_id, get_active, new_draft, mark_active, mark_archived,
  list_missing_image_positions,
}
use testify.Exams.Service.{publish}
use testify.Exams.Service.Publish.{publish-active}
use testify.Exams.Service.Authoring.{
  perform, perform-one_active, publish_call, replace_call, IsConflict,
}
use testify.Exams.Service.Published.{perform-published}
use testify.Examples.Data.{database, exam, letter_a}

abbrev with_draft : Database
with_draft = record database { tests = exam ∷ new_draft 6 letter_a 3200 none ∷ [] }

abbrev published : Test
published = record (new_draft 6 letter_a 3200 none) { status = active; published_at = some 301 }

publish_returns : outcome (publish 6 300 301) with_draft ≡ ok published
unfolding publish get_active mark_archived mark_active get_by_id list_missing_image_positions select
    find count update
publish_returns = refl

publish-active_example :
    let left = after (publish 6 300 301) with_draft in
    (published.id ≡ 6)
    × (is_active published.status ≡ true)
    × (get_by_id 6 left ≡ some published)
    × (count is_active_row left.tests ≡ 1)
    × (list_missing_image_positions 6 with_draft ≡ [])
unfolding count
publish-active_example = publish-active 6 300 301 with_draft published (omega arith) publish_returns

perform-one_active_example :
    (count is_active_row (perform (publish_call 6 300 301) with_draft).tests ≤ 1)
    × (¬ IsConflict (publish_call 6 300 301) with_draft)
unfolding count
perform-one_active_example =
    perform-one_active (publish_call 6 300 301) with_draft (refl, (refl, tt)) (omega arith)

perform-published_example :
    select (is_of_test 5) (perform (replace_call (λ p. p) 6 []) with_draft).questions
    ≡ select (is_of_test 5) with_draft.questions
unfolding count get_by_id find
perform-published_example =
    perform-published 5 exam (replace_call (λ p. p) 6 []) with_draft (omega arith) refl refl refl
