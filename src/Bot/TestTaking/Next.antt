-- ===== src/Bot/TestTaking/Next.antt =====
-- Where the cursor goes after an answer.
use testify.Common.{
  ℕ, zero, suc, ◌+◌, ◌-◌, ◌≤◌, ◌<◌, ◌≡◌, ◌⊎◌, inl, inr, refl, true, false, some, none, List, ◌∷◌,
  Bool-cases, Option, arith, ==_iff, ◌==◌, subst,
}
use testify.Attempts.Service.{AttemptState}
use testify.Bot.Screen.Test.{contains, range_from, answered_positions}
use testify.Bot.TestTaking.{first_unanswered, next_unanswered, pick_next_position}

-- Every position from `lo` below `hi` is answered.
abbrev pub AllAnswered : List ℕ → ℕ → ℕ → Type 0
AllAnswered answered lo hi = (pos : ℕ) → lo ≤ pos → pos < hi → contains answered pos ≡ true

-- The question to go to: the first open one after the one just answered, or else the first open one
-- before it, or else the current one.
pub data IsNext (answered : List ℕ) (just current : ℕ) : ℕ → Type 0 where
  later :
      (pos : ℕ)
      → just < pos
      → pos ≤ 50
      → contains answered pos ≡ false
      → AllAnswered answered (just + 1) pos
      → IsNext answered just current pos
  earlier :
      (pos : ℕ)
      → 1 ≤ pos
      → pos < just
      → contains answered pos ≡ false
      → AllAnswered answered (just + 1) 51
      → AllAnswered answered 1 pos
      → IsNext answered just current pos
  stay :
      AllAnswered answered (just + 1) 51
      → AllAnswered answered 1 just
      → IsNext answered just current current

-- What a loop over `range(start, start + n)` finds.
FirstOf : List ℕ → ℕ → ℕ → Option ℕ → Type 0
FirstOf answered start n found =
    ((pos : ℕ) × (found ≡ some pos)
      × (start ≤ pos)
      × (pos < start + n)
      × (contains answered pos ≡ false)
      × AllAnswered answered start pos)
    ⊎ (found ≡ none) × AllAnswered answered start (start + n)

AllAnswered-first :
    (answered : List ℕ) (start hi : ℕ)
    → contains answered start ≡ true
    → AllAnswered answered (start + 1) hi
    → AllAnswered answered start hi
AllAnswered-first answered start hi h rest pos lo below = elim (Bool-cases (start == pos)) [
  | inl same ↦ subst (λ p. contains answered p ≡ true) ((==_iff start pos).0 same) h
  | inr differs ↦ rest pos (ground arith) below
]

first_unanswered-FirstOf :
    (answered : List ℕ) (start n : ℕ)
    → FirstOf answered start n (first_unanswered answered (range_from start n))
unfolding FirstOf first_unanswered range_from
first_unanswered-FirstOf answered start zero = inr (refl, λ pos lo below. ground arith)
first_unanswered-FirstOf answered start (suc n) = elim (Bool-cases (contains answered start)) [
  | inr free ↦
      rw free (inl (start, refl, omega arith, omega arith, free, λ pos lo below. ground arith))
  | inl taken ↦ rw taken (elim (first_unanswered-FirstOf answered (start + 1) n) [
    | inl (pos, e, lo, below, free, before) ↦
        inl (
          pos,
          e,
          omega arith,
          omega arith,
          free,
          AllAnswered-first answered start pos taken before,
        )
    | inr (e, before) ↦ inr (
      e,
      AllAnswered-first answered start (start + suc n) taken
          (λ pos lo below. before pos lo (omega arith)),
    )
  ])
]

-- After an answer the cursor goes to the first position after it that has no answer, or else to the
-- first position before it that has none; where every other position is answered it stays.
pub pick_next_position-IsNext :
    (state : AttemptState) (just : ℕ)
    → just ≤ 50
    → IsNext
        (just ∷ answered_positions state)
        just
        state.current_position
        (pick_next_position state just)
unfolding pick_next_position next_unanswered FirstOf
pick_next_position-IsNext state just bound =
    let answered = just ∷ answered_positions state in
    elim (first_unanswered-FirstOf answered (just + 1) (50 - just)) [
      | inl (pos, e, lo, below, free, before) ↦
          rw e (later pos (omega arith) (omega arith) free before)
      | inr (e, after) ↦ rw e (elim (first_unanswered-FirstOf answered 1 (just - 1)) [
        | inl (pos, e', lo, below, free, before) ↦
            rw e'
              (earlier pos lo (omega arith) free (λ p lo below. after p lo (omega arith)) before)
        | inr (e', before) ↦ rw e' (
            stay (λ p lo below. after p lo (omega arith)) (λ p lo below. before p lo (omega arith)))
      ])
    ]
