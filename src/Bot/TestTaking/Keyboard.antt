-- ===== src/Bot/TestTaking/Keyboard.antt =====
-- The callbacks that the buttons of a test's screens send.

use testify.Bot.Screen.Result.{render_finish_confirmation}
use testify.Attempts.Service.{AttemptState}
use testify.Common.{
  ℕ, zero, suc, true, false, ◌≡◌, ◌≤◌, arith, List, [], ◌∷◌, map, ◌+◌, All, Text, some, Bool, subst,
  some-injective, refl, ◌≢◌,
}
use testify.Bot.Screen.{
  Callback, test_answer, test_nav, test_finish, Button, callback_button, link_button, Keyboard,
  Label, RenderedMessage,
}
use testify.Bot.Screen.Test.{
  range_from, build_keyboard, format_grid_label, previous_position, next_position, grid_row,
  answer_row, answered_positions, render_test_screen,
}
use testify.Bot.TestTaking.Buttons.{in_range}

-- A callback of a row, and of a keyboard.
pub data IsInRow (c : Callback) : List Button → Type 0 where
  here : {label : Label} {row : List Button} → IsInRow c (callback_button label c ∷ row)
  there : {b : Button} {row : List Button} → IsInRow c row → IsInRow c (b ∷ row)

pub data IsOn (c : Callback) : Keyboard → Type 0 where
  in_row : {row : List Button} {rows : Keyboard} → IsInRow c row → IsOn c (row ∷ rows)
  below : {row : List Button} {rows : Keyboard} → IsOn c rows → IsOn c (row ∷ rows)

abbrev Holds : (Callback → Type 0) → Button → Type 0
Holds P (callback_button label c) = P c
Holds P (link_button label link) = Unit

All-IsInRow :
    (P : Callback → Type 0) (c : Callback) (row : List Button)
    → All (Holds P) row
    → IsInRow c row
    → P c
All-IsInRow P c [] h i = elim i [ ]
All-IsInRow P c (callback_button label c' ∷ row) h here = h.0
All-IsInRow P c (b ∷ row) h (there i) = All-IsInRow P c row h.1 i

All-IsOn :
    (P : Callback → Type 0) (c : Callback) (keyboard : Keyboard)
    → All (All (Holds P)) keyboard
    → IsOn c keyboard
    → P c
All-IsOn P c [] h i = elim i [ ]
All-IsOn P c (row ∷ rows) h (in_row i) = All-IsInRow P c row h.0 i
All-IsOn P c (row ∷ rows) h (below i) = All-IsOn P c rows h.1 i

-- The callbacks of the test screen.
pub data IsTestTap (attempt_id current : ℕ) : Callback → Type 0 where
  answer_tap :
      (option : Text) → IsTestTap attempt_id current (test_answer attempt_id current option)
  nav_tap :
      (target : ℕ)
      → in_range target ≡ true
      → IsTestTap attempt_id current (test_nav attempt_id target)
  finish_tap : IsTestTap attempt_id current (test_finish attempt_id false)

grid-IsTestTap :
    (attempt_id current : ℕ) (answered : List ℕ) (first n : ℕ)
    → 1 ≤ first
    → first + n ≤ 51
    → All (Holds (IsTestTap attempt_id current)) (
        map
          (λ pos.
            callback_button (format_grid_label pos current answered) (test_nav attempt_id pos))
          (range_from first n))
unfolding range_from
grid-IsTestTap attempt_id current answered first zero low high = tt
grid-IsTestTap attempt_id current answered first (suc n) low high = (
  nav_tap first (ground arith),
  grid-IsTestTap attempt_id current answered (first + 1) n (omega arith) (omega arith),
)

build_keyboard-IsTestTap :
    (attempt_id current : ℕ) (answered : List ℕ)
    → in_range current ≡ true
    → All (All (Holds (IsTestTap attempt_id current))) (build_keyboard attempt_id current answered)
unfolding build_keyboard
build_keyboard-IsTestTap attempt_id current answered range =
    let answers : (option : Text)
        → All (Holds (IsTestTap attempt_id current)) (answer_row attempt_id current option) =
      λ option. (answer_tap option, tt) in
    let grid : (first : ℕ)
        → 1 ≤ first
        → first + 10 ≤ 51
        → All (Holds (IsTestTap attempt_id current)) (grid_row attempt_id current answered first) =
      λ first low high. grid-IsTestTap attempt_id current answered first 10 low high in
    (
      answers _,
      (
        answers _,
        (
          answers _,
          (
            answers _,
            (
              (
                nav_tap (previous_position current) (ground arith),
                (nav_tap (next_position current) (ground arith), tt),
              ),
              (
                (finish_tap, tt),
                (
                  grid 1 (omega arith) (omega arith),
                  (
                    grid 11 (omega arith) (omega arith),
                    (
                      grid 21 (omega arith) (omega arith),
                      (
                        grid 31 (omega arith) (omega arith),
                        (grid 41 (omega arith) (omega arith), tt),
                      ),
                    ),
                  ),
                ),
              ),
            ),
          ),
        ),
      ),
    )

-- The screen has a button that sends the callback.
unfoldable pub HasButton : Callback → RenderedMessage → Type 0
HasButton c screen = (keyboard : Keyboard) × (screen.reply_markup ≡ some keyboard) × IsOn c keyboard

abbrev pub IsFinish : ℕ → Callback → Type 0
IsFinish attempt_id c = (confirmed : Bool) × (c ≡ test_finish attempt_id confirmed)

pub dialog-IsFinish :
    (attempt_id n : ℕ) (c : Callback)
    → HasButton c (render_finish_confirmation attempt_id n)
    → IsFinish attempt_id c
unfolding HasButton render_finish_confirmation
dialog-IsFinish attempt_id n c (keyboard, e, on) =
    All-IsOn (IsFinish attempt_id) c keyboard
      (subst (λ k. All (All (Holds (IsFinish attempt_id))) k) (some-injective _ _ e)
        (((true, refl), tt), (((false, refl), tt), tt)))
      on

pub unconfirmed_finish :
    (attempt_id : ℕ) (c : Callback)
    → c ≢ test_finish attempt_id true
    → IsFinish attempt_id c
    → c ≡ test_finish attempt_id false
unconfirmed_finish attempt_id c h (true, e) = elim (h e) [ ]
unconfirmed_finish attempt_id c h (false, e) = e

pub test_screen-IsTestTap :
    (state : AttemptState) (c : Callback)
    → in_range state.current_position ≡ true
    → HasButton c (render_test_screen state)
    → IsTestTap state.attempt_id state.current_position c
unfolding HasButton render_test_screen
test_screen-IsTestTap state c range (keyboard, e, on) =
    All-IsOn (IsTestTap state.attempt_id state.current_position) c keyboard
      (subst (λ k. All (All (Holds (IsTestTap state.attempt_id state.current_position))) k)
        (some-injective _ _ e)
        (build_keyboard-IsTestTap state.attempt_id state.current_position (answered_positions state)
          range))
      on
