-- ===== src/Exams/Form/Loop.antt =====
-- What the loop over the cards collects.
use testify.Exams.Repository.Bulk.{draft_position}
use testify.Common.{
  ℕ, Bool, List, [], ◌≡◌, ◌≤◌, Text, refl, arith, ◌∷◌, some, Distinct, All, ◌+◌, zero, suc, count,
  subst, ◌==◌, sym,
}
use testify.Exams.Repository.{QuestionDraft}
use testify.Exams.Form.{
  RawCard, CardOutcome, parse_card, refused, accepted, skipped, assertion_failed, parse_cards,
  ParsedTestForm, FormData, add_card, read_card,
}
use testify.Exams.Form.Cards.{IsSound, IsGood, parse_card-IsGood}

module _ (is_space : ℕ → Bool) where
  -- The drafts of a form from a position on.
  unfoldable pub IsFrom : ℕ → List QuestionDraft → Type 0
  IsFrom pos drafts =
      All (λ d. IsSound is_space d × (pos ≤ d.position)) drafts × Distinct draft_position drafts

  All-lower :
      (pos : ℕ) (drafts : List QuestionDraft)
      → All (λ d. IsSound is_space d × (pos + 1 ≤ d.position)) drafts
      → All (λ d. IsSound is_space d × (pos ≤ d.position)) drafts
  All-lower pos [] h = tt
  All-lower pos (d ∷ drafts) h =
      let above = h.0.1 in ((h.0.0, omega (arith, above)), All-lower pos drafts h.1)

  All-count :
      (pos : ℕ) (drafts : List QuestionDraft)
      → All (λ d. IsSound is_space d × (pos + 1 ≤ d.position)) drafts
      → count (λ y. y.position == pos) drafts ≡ 0
  unfolding count
  All-count pos [] h = refl
  All-count pos (d ∷ drafts) h =
      let above = h.0.1 in let rest = All-count pos drafts h.1 in ground (arith, above, rest)

  -- The form so far, from a position on: its title and its drafts.
  unfoldable pub IsPart : ℕ → ParsedTestForm → ParsedTestForm → Type 0
  IsPart pos parsed r =
      (r.title ≡ parsed.title) × ((r.form_errors ≡ parsed.form_errors) × IsFrom pos r.drafts)

  add_card-some :
      (pos : ℕ) (card : RawCard) (outcome : CardOutcome) (parsed rest : ParsedTestForm)
      → IsGood is_space pos outcome
      → IsPart (pos + 1) parsed rest
      → (r : ParsedTestForm) × ((add_card pos card outcome rest ≡ some r) × IsPart pos parsed r)
  unfolding IsGood IsPart IsFrom
  add_card-some pos card skipped parsed rest good from =
      (_, (refl, (from.0, (from.1.0, (All-lower pos rest.drafts from.1.1.0, from.1.1.1)))))
  add_card-some pos card assertion_failed parsed rest good from = absurd good
  add_card-some pos card (refused error errors) parsed rest good from =
      (_, (refl, (from.0, (from.1.0, (All-lower pos rest.drafts from.1.1.0, from.1.1.1)))))
  add_card-some pos card (accepted d) parsed rest good from =
      let at = good.1 in
      let apart =
        subst (λ p. count (λ y. y.position == p) rest.drafts ≡ 0) (sym good.1)
          (All-count pos rest.drafts from.1.1.0) in
      (
        _,
        (
          refl,
          (
            from.0,
            (
              from.1.0,
              (
                ((good.0, omega (arith, at)), All-lower pos rest.drafts from.1.1.0),
                (apart, from.1.1.1),
              ),
            ),
          ),
        ),
      )

  module _ (upper : Text → Text) (form_data : FormData) where
    pub parse_cards-IsPart :
        (pos n : ℕ) (parsed : ParsedTestForm)
        → 1 ≤ pos
        → pos + n ≤ 51
        → parsed.drafts ≡ []
        → (r : ParsedTestForm) × ((parse_cards is_space upper form_data pos n parsed ≡ some r)
            × IsPart pos parsed r)
    unfolding parse_cards IsPart IsFrom
    parse_cards-IsPart pos zero parsed low high start =
        (parsed, (refl, (refl, (refl, rw start (tt, tt)))))
    parse_cards-IsPart pos (suc n) parsed low high start =
        let card = read_card is_space upper form_data pos in
        let later = parse_cards-IsPart (pos + 1) n parsed (omega arith) (omega arith) start in
        let good = parse_card-IsGood is_space pos card low (omega arith) in
        rw later.1.0
          (add_card-some pos card (parse_card is_space pos card) parsed later.0 good later.1.1)
