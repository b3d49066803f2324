-- ===== src/Exams/Form/Cards.antt =====
-- What the loop over the cards lets through.

use testify.Models.{Section}
use testify.Exams.Validation.Sections.{section_for_position-in_range}
use testify.Exams.Validation.{section_for_position}
use testify.Common.{
  ℕ, Bool, List, [], ◌≡◌, ◌≤◌, true, false, Text, length, refl, arith, ◌++◌, ◌∷◌, ltb, Bool-cases,
  inr, inl, none, some, Option, not, ◌&&◌,
}
use testify.Utils.Strip.{is_empty}
use testify.Exams.Repository.{QuestionDraft, in_range, is_option}
use testify.Exams.Validation.Complete.{append-nil}
use testify.Exams.Validation.Fields.{
  Field, Complaint, complain, caption_block_length, validate_question_fields, FieldError,
}
use testify.Exams.Form.{
  RawCard, missing_fields, CardOutcome, parse_card, refused, refused_or, accepted, is_filled,
  place_card, skipped, assertion_failed, draft_of,
}

-- A text that is there and within its limit.
abbrev pub IsWithin : ℕ → Text → Type 0
IsWithin limit text = (1 ≤ length text) × (length text ≤ limit)

-- What the database and Telegram ask of a question that is stored.
pub record IsSound (is_space : ℕ → Bool) (d : QuestionDraft) : Type 0 where
  pub placed : in_range d.section d.position ≡ true
  pub correct : is_option d.correct_option ≡ true
  pub text : IsWithin 1000 d.question_text
  pub a : IsWithin 300 d.option_a
  pub b : IsWithin 300 d.option_b
  pub c : IsWithin 300 d.option_c
  pub d' : IsWithin 300 d.option_d
  pub caption :
      d.has_image ≡ true
      → caption_block_length is_space (record {
        question_text = d.question_text;
        option_a = d.option_a;
        option_b = d.option_b;
        option_c = d.option_c;
        option_d = d.option_d;
      })
        ≤ 850

pub complain-nil :
    (test : Bool) (field : Field) (complaint : Complaint)
    → complain test field complaint ≡ []
    → test ≡ false
complain-nil true field complaint h = ground arith
complain-nil false field complaint h = refl

pub no_entries : {A : Type 0} {xs ys : List A} → xs ++ ys ≡ [] → (xs ≡ []) × (ys ≡ [])
no_entries {A} {xs} {ys} h = append-nil xs ys h

-- The fields that may be missing and those that may be too long.
record IsFilledIn (card : RawCard) : Type 0 where
  text : is_empty card.texts.question_text ≡ false
  a : is_empty card.texts.option_a ≡ false
  b : is_empty card.texts.option_b ≡ false
  c : is_empty card.texts.option_c ≡ false
  d : is_empty card.texts.option_d ≡ false

missing_fields-nil : (card : RawCard) → missing_fields card ≡ [] → IsFilledIn card
missing_fields-nil card h =
    let h4 = no_entries h in
    let h3 = no_entries h4.0 in
    let h2 = no_entries h3.0 in
    let h1 = no_entries h2.0 in
    let h0 = no_entries h1.0 in
    record {
      text = complain-nil _ _ _ h0.0;
      a = complain-nil _ _ _ h0.1;
      b = complain-nil _ _ _ h1.1;
      c = complain-nil _ _ _ h2.1;
      d = complain-nil _ _ _ h3.1;
    }

filled_length : (s : Text) → is_empty s ≡ false → 1 ≤ length s
filled_length [] h = ground arith
filled_length (c ∷ s) h = omega arith

pub not-false : (b : Bool) → not b ≡ false → b ≡ true
not-false true h = refl
not-false false h = ground arith

caption_within : (b : Bool) (n : ℕ) → (b && ltb 850 n) ≡ false → b ≡ true → n ≤ 850
caption_within b n h e = ground arith

module _ (is_space : ℕ → Bool) where
  -- What the loop's round makes of a card.
  unfoldable pub IsGood : ℕ → CardOutcome → Type 0
  IsGood pos skipped = Unit
  IsGood pos assertion_failed = ⊥
  IsGood pos (refused error errors) = Unit
  IsGood pos (accepted d) = IsSound is_space d × (d.position ≡ pos)

  refused_or-IsGood :
      (pos : ℕ) (errors : List FieldError) (outcome : CardOutcome)
      → (errors ≡ [] → IsGood pos outcome)
      → IsGood pos (refused_or errors outcome)
  unfolding IsGood
  refused_or-IsGood pos [] outcome f = f refl
  refused_or-IsGood pos (error ∷ errors) outcome f = tt

  within :
      (limit : ℕ) (s : Text) → is_empty s ≡ false → ltb limit (length s) ≡ false → IsWithin limit s
  within limit s filled short = (filled_length s filled, ground (arith, short))

  draft_of-IsSound :
      (section : Section) (pos : ℕ) (card : RawCard)
      → in_range section pos ≡ true
      → IsFilledIn card
      → validate_question_fields is_space section pos card.texts card.correct card.has_image ≡ []
      → IsSound is_space (draft_of section pos card)
  unfolding validate_question_fields
  draft_of-IsSound section pos card inside filled h =
      let p1 = no_entries (no_entries h).1 in
      let p2 = no_entries p1.1 in
      let p3 = no_entries p2.1 in
      let p4 = no_entries p3.1 in
      let l3 = no_entries p2.0 in
      let l2 = no_entries l3.0 in
      let l1 = no_entries l2.0 in
      let l0 = no_entries l1.0 in
      let card_option = is_option card.correct in
      let caption_length = caption_block_length is_space card.texts in
      let right_option = complain-nil _ _ _ p3.0 in
      let short_caption = complain-nil _ _ _ p4.1 in
      record {
        placed = inside;
        correct = not-false card_option right_option;
        text = within 1000 _ filled.text (complain-nil _ _ _ l0.0);
        a = within 300 _ filled.a (complain-nil _ _ _ l0.1);
        b = within 300 _ filled.b (complain-nil _ _ _ l1.1);
        c = within 300 _ filled.c (complain-nil _ _ _ l2.1);
        d' = within 300 _ filled.d (complain-nil _ _ _ l3.1);
        caption = caption_within card.has_image caption_length short_caption;
      }

  place_card-IsGood :
      (pos : ℕ) (card : RawCard) (section : Option Section)
      → section_for_position pos ≡ section
      → 1 ≤ pos
      → pos ≤ 50
      → IsFilledIn card
      → IsGood pos (place_card is_space pos card section)
  unfolding IsGood section_for_position
  place_card-IsGood pos card none h low high filled = ground arith
  place_card-IsGood pos card (some section) h low high filled =
      refused_or-IsGood pos
        (validate_question_fields is_space section pos card.texts card.correct card.has_image)
        (accepted (draft_of section pos card))
        (λ valid. (
          draft_of-IsSound section pos card ((section_for_position-in_range section pos).0 h) filled
              valid,
          refl,
        ))

  pub parse_card-IsGood :
      (pos : ℕ) (card : RawCard) → 1 ≤ pos → pos ≤ 50 → IsGood pos (parse_card is_space pos card)
  unfolding parse_card IsGood
  parse_card-IsGood pos card low high = elim (Bool-cases (is_filled card)) [
    | inr e ↦ rw e tt
    | inl e ↦ rw e (
        refused_or-IsGood pos (missing_fields card)
          (place_card is_space pos card (section_for_position pos))
          (λ m.
            place_card-IsGood pos card (section_for_position pos) refl low high
              (missing_fields-nil card m)))
  ]
