-- ===== src/Scoring/Exact.antt =====
-- The score against an independent description: the questions that were answered right.
use testify.Common.{
  sym, subst, ==_iff, count-false, ℕ, ◌≡◌, refl, Bool, false, ◌&&◌, ◌||◌, none, List, [], ◌∷◌,
  arith, text_eq, count, count-same, count-or, All-of, Distinct, ◌==◌, Bool-cases, inl, inr,
}
use testify.Models.{Question, Answer, Section, section_eq}
use testify.Scoring.{question_by_id}
use testify.Scoring.Count.{hit, hits}

-- Some answer of the list is to this question, and selects its correct option.
unfoldable pub is_answered_right : List Answer → Question → Bool
is_answered_right [] q = false
is_answered_right (a ∷ answers) q =
    a.question_id == q.id && text_eq a.selected_option q.correct_option
    || is_answered_right answers q

-- The answered-right questions of a section.
unfoldable pub right_in_section : Section → List Answer → List Question → ℕ
unfolding is_answered_right
right_in_section s answers questions =
    count (λ q. section_eq s q.section && is_answered_right answers q) questions

-- The new answer alone.
abbrev is_hit_by : Section → Answer → Question → Bool
is_hit_by s a q =
    section_eq s q.section && (a.question_id == q.id && text_eq a.selected_option q.correct_option)

question_by_id_missing :
    (questions : List Question) (i : ℕ)
    → count (λ (q : Question). q.id == i) questions ≡ 0
    → question_by_id questions i ≡ none
unfolding question_by_id count
question_by_id_missing [] i h = refl
question_by_id_missing (q ∷ questions) i h = ground (arith, question_by_id_missing questions i)

count-is_hit_by_missing :
    (s : Section) (a : Answer) (questions : List Question)
    → count (λ (q : Question). q.id == a.question_id) questions ≡ 0
    → count (is_hit_by s a) questions ≡ 0
unfolding count
count-is_hit_by_missing s a [] h = refl
count-is_hit_by_missing s a (q ∷ questions) h =
    ground (arith, count-is_hit_by_missing s a questions)

-- With distinct ids an answer hits the one question that the lookup finds.
count-is_hit_by :
    (s : Section) (a : Answer) (questions : List Question)
    → Distinct (λ (q : Question). q.id) questions
    → count (is_hit_by s a) questions ≡ hit s (question_by_id questions a.question_id) a
unfolding count question_by_id
count-is_hit_by s a [] d = refl
count-is_hit_by s a (q ∷ questions) d = elim (Bool-cases (q.id == a.question_id)) [
  | inl same ↦
      let gone =
        subst (λ i. count (λ (r : Question). r.id == i) questions ≡ 0)
          ((==_iff q.id a.question_id).0 same) d.0 in
      ground (
        arith,
        question_by_id_missing questions a.question_id gone,
        count-is_hit_by_missing s a questions gone,
      )
  | inr differs ↦ ground (arith, count-is_hit_by s a questions d.1)
]

unanswered :
    (answers : List Answer) (q : Question)
    → count (λ (a : Answer). a.question_id == q.id) answers ≡ 0
    → is_answered_right answers q ≡ false
unfolding is_answered_right count
unanswered [] q h = refl
unanswered (a ∷ answers) q h = ground (arith, unanswered answers q)

-- No question is both hit by an answer and answered right by the later ones.
hit_once :
    (s : Section) (a : Answer) (answers : List Answer) (q : Question)
    → count (λ (b : Answer). b.question_id == a.question_id) answers ≡ 0
    → (is_hit_by s a q && (section_eq s q.section && is_answered_right answers q)) ≡ false
hit_once s a answers q d = elim (Bool-cases (a.question_id == q.id)) [
  | inl same ↦
      let gone =
        subst (λ i. count (λ (b : Answer). b.question_id == i) answers ≡ 0)
          ((==_iff a.question_id q.id).0 same) d in
      ground (arith, unanswered answers q gone)
  | inr differs ↦ ground arith
]

pub hits-eq-right :
    (s : Section) (answers : List Answer) (questions : List Question)
    → Distinct (λ (a : Answer). a.question_id) answers
    → Distinct (λ (q : Question). q.id) questions
    → hits s answers questions ≡ right_in_section s answers questions
unfolding right_in_section
hits-eq-right s [] questions da dq = sym (count-false _ questions (λ q. ground arith))
hits-eq-right s (a ∷ answers) questions da dq = omega (
  arith,
  count-is_hit_by s a questions dq,
  hits-eq-right s answers questions da.1 dq,
  count-or (is_hit_by s a) (λ q. section_eq s q.section && is_answered_right answers q) questions
      (All-of _ questions (λ q. hit_once s a answers q da.0)),
  count-same (λ q. section_eq s q.section && is_answered_right (a ∷ answers) q)
      (λ q. is_hit_by s a q || (section_eq s q.section && is_answered_right answers q)) questions
      (λ q. ground arith),
)
