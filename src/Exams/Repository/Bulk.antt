-- ===== src/Exams/Repository/Bulk.antt =====
-- When `bulk_create` succeeds.
use testify.Common.{
  ℕ, List, [], ◌∷◌, ◌++◌, ◌==◌, ◌≡◌, true, some, count, insert, map, All, Distinct, refl, arith,
  count-insert, find_of_count_zero, ◌∙◌, ap, sym,
}
use mathlib.Core.List.{append-nil, append_assoc}
use testify.Models.{Question, Database}
use testify.Exams.Repository.{QuestionDraft, new_question, bulk_create, is_valid_row, is_at}

abbrev pub draft_position : QuestionDraft → ℕ
draft_position d = d.position

insert_append : {A : Type 0} (a : A) (xs : List A) → insert a xs ≡ xs ++ a ∷ []
unfolding insert
insert_append a [] = refl
insert_append a (x ∷ xs) = ap (λ r. x ∷ r) (insert_append a xs)

module _ (row_id : ℕ → ℕ) (test_id : ℕ) where
  abbrev pub row_of : QuestionDraft → Question
  row_of d = new_question (row_id d.position) test_id d

  -- Another draft's row stands at another position.
  free-insert :
      (d : QuestionDraft) (drafts : List QuestionDraft) (rows : List Question)
      → count (λ y. y.position == d.position) drafts ≡ 0
      → All (λ y. count (is_at test_id y.position) rows ≡ 0) drafts
      → All (λ y. count (is_at test_id y.position) (insert (row_of d) rows) ≡ 0) drafts
  unfolding count
  free-insert d [] rows apart free = tt
  free-insert d (y ∷ drafts) rows apart free = (
    ground (arith, count-insert (is_at test_id y.position) (row_of d) rows, free.0),
    free-insert d drafts rows (ground (arith, apart)) free.1,
  )

  -- Valid rows at different free positions are all stored, in their order, after the rows there.
  pub bulk_create-rows :
      (drafts : List QuestionDraft) (db : Database)
      → All (λ d. is_valid_row (row_of d) ≡ true) drafts
      → Distinct draft_position drafts
      → All (λ d. count (is_at test_id d.position) db.questions ≡ 0) drafts
      → bulk_create row_id test_id drafts db
        ≡ some (record db { questions = db.questions ++ map row_of drafts })
  unfolding bulk_create
  bulk_create-rows [] db valid apart free =
      ap (λ q. some (record db { questions = q })) (sym (append-nil db.questions))
  bulk_create-rows (d ∷ drafts) db valid apart free =
      let stored = record db { questions = insert (row_of d) db.questions } in
      let rest =
        bulk_create-rows drafts stored valid.1 apart.1
          (free-insert d drafts db.questions apart.0 free.1) in
      rw (valid.0, find_of_count_zero (is_at test_id d.position) db.questions free.0)
        (rest
          ∙ ap (λ q. some (record db { questions = q }))
              (ap (λ q. q ++ map row_of drafts) (insert_append (row_of d) db.questions)
                ∙ append_assoc db.questions (row_of d ∷ []) (map row_of drafts)))
