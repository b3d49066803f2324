-- ===== src/Examples/Taking.antt =====
-- The test-taking handlers on an open attempt of a test with 50 questions.
use testify.Common.{select}
use testify.Attempts.Service.{get_state}
use testify.Attempts.Repository.{list_by_attempt}
use testify.Bot.TestTaking.{answered_count}
use testify.Common.{[]}
use testify.Effects.{ok, after, outcome}
use testify.Models.{submitted, Attempt}
use testify.Bot.Screen.{Callback, test_finish}
use testify.Bot.Screen.Result.{render_finish_confirmation}
use testify.Bot.TestTaking.{edit_or_answer}
use testify.Bot.TestTaking.Entry.{on_callback}
use testify.Bot.TestTaking.Keyboard.{HasButton, in_row, below, here}
use testify.Bot.TestTaking.Walk.{stop, tap, Walk-IsUnderWay}
use testify.Bot.TestTaking.UnderWay.{IsUnderWay}
use testify.Common.{
  ℕ, zero, suc, true, false, none, some, ◌∷◌, ◌≡◌, refl, inl, inr, find, arith, ◌+◌, ◌≤◌, ◌<◌, ◌==◌,
  Bool-cases, map, ◌&&◌,
}
use testify.Models.{Question, Database, rus_tili}
use testify.Attempts.Repository.{get_by_id, get_by_test_position}
use testify.Attempts.Service.{get_attempt_for_user}
use testify.Bot.Screen.{RenderedMessage}
use testify.Bot.Screen.Test.{range_from, render_test_screen, answered_positions}
use testify.Bot.TestTaking.{Container, Telegram, edited, pick_next_position}
use testify.Bot.TestTaking.Handlers.{Conversation}
use testify.Bot.TestTaking.Next.{IsNext, pick_next_position-IsNext}
use testify.Bot.TestTaking.Live.{IsReachable, state_of, get_state-found, open_rows}
use testify.Bot.TestTaking.Buttons.{HasAll}
use testify.Bot.TestTaking.Walk.{stop, tap, Walk-IsUnderWay}
use testify.Bot.TestTaking.UnderWay.{IsUnderWay}
use testify.Examples.Data.{store, world, database, attempt_row, question_row, student}
use testify.Examples.Cache.{redis, settings}

abbrev container : Container
container = record {
  sched = store;
  redis = redis;
  is_space = λ c. c == 32;
  strip_upper = λ text. text;
}

-- Every edit and send works, on a text message.
abbrev telegram : Telegram
telegram = record {
  acknowledged = true;
  message_is_photo = some false;
  edit = λ r. edited;
  send = λ r. true;
}

telegram-IsReachable : IsReachable telegram
telegram-IsReachable = record {
  acknowledged = refl;
  is_photo = false;
  message = refl;
  edits = λ r e. cc;
  sends = λ r. refl;
}

abbrev clock : ℕ → ℕ
clock n = 1000 + n

-- 50 questions, at the positions 1 to 50
abbrev question_for : ℕ → Question
question_for pos = question_row (100 + pos) rus_tili pos

abbrev full_database : Database
full_database = record database { questions = map question_for (range_from 1 50) }

found_for :
    (start n pos : ℕ)
    → start ≤ pos
    → pos < start + n
    → (q : Question) × (find
          (λ (q : Question). q.test_id == 5 && q.position == pos)
          (map question_for (range_from start n))
        ≡ some q)
unfolding find range_from
found_for start zero pos low high = ground arith
found_for start (suc n) pos low high = elim (Bool-cases (start == pos)) [
  | inl same ↦ rw same (_, refl)
  | inr differs ↦ rw differs (found_for (start + 1) n pos (ground arith) (ground arith))
]

full_database-HasAll : HasAll 5 full_database
unfolding get_by_test_position
full_database-HasAll pos range = found_for 1 50 pos (ground arith) (ground arith)

attempt_row-found : get_attempt_for_user 10 1 full_database ≡ some attempt_row
unfolding get_attempt_for_user get_by_id find
attempt_row-found = refl

-- the test screen of the attempt
abbrev first_screen : RenderedMessage
first_screen = render_test_screen (state_of 10 900 full_database attempt_row)

abbrev conversation : Conversation container
conversation = record {
  world = record world { db = full_database };
  settings = settings;
  fsm = record { state = none; attempt_id = none };
  screen = some first_screen;
}

only_open : open_rows 1 full_database ≡ attempt_row ∷ []
unfolding select
only_open = refl

conversation-IsUnderWay : IsUnderWay container 10 1 conversation
conversation-IsUnderWay = record {
  attempt = attempt_row;
  is_live = record { found = attempt_row-found; is_open = refl; cursor = refl; only = only_open };
  has_all = full_database-HasAll;
  shown = inl (
    900,
    state_of 10 900 full_database attempt_row,
    get_state-found 10 1 900 full_database attempt_row attempt_row-found,
    refl,
  );
}

pick_next_position-IsNext_example :
    IsNext
      (2 ∷ answered_positions (state_of 10 900 full_database attempt_row))
      2
      2
      (pick_next_position (state_of 10 900 full_database attempt_row) 2)
pick_next_position-IsNext_example =
    pick_next_position-IsNext (state_of 10 900 full_database attempt_row) 2 (omega arith)

-- the same attempt after its end
abbrev ended_row : Attempt
ended_row = record attempt_row { status = submitted; score_total_correct = some 1 }

abbrev ended : Conversation container
ended = record conversation {
  world = record world { db = record full_database { attempts = ended_row ∷ [] } };
}

-- ---------- the dialog about the end ----------

abbrev finish_button : Callback
finish_button = test_finish 10 false

abbrev dialog : RenderedMessage
dialog = render_finish_confirmation 10 2

-- the conversation with the dialog on the screen
abbrev asked : Conversation container
asked = (on_callback container telegram 11 student clock finish_button conversation).1

asked_shows : asked.screen ≡ some dialog
unfolding on_callback get_state get_attempt_for_user get_by_id find edit_or_answer
    render_finish_confirmation answered_count list_by_attempt select
asked_shows = refl

-- The continue button sends the callback that the finish button sends, so the dialog stays.
continue_stays :
    (on_callback container telegram 11 student clock finish_button asked).1.screen ≡ some dialog
unfolding on_callback get_state get_attempt_for_user get_by_id find edit_or_answer
    render_finish_confirmation answered_count list_by_attempt select
continue_stays = refl

finish_on_first : HasButton finish_button first_screen
unfolding HasButton render_test_screen
finish_on_first = (_, refl, below (below (below (below (below (in_row here))))))

continue_on_dialog : HasButton finish_button dialog
unfolding HasButton render_finish_confirmation
continue_on_dialog = (_, refl, below (in_row here))

Walk-IsUnderWay_example :
    let r = on_callback container telegram 11 student clock finish_button in
    (outcome r asked ≡ ok tt) × IsUnderWay container 10 1 (after r asked)
Walk-IsUnderWay_example =
    Walk-IsUnderWay container 10 student conversation asked telegram 11 clock finish_button dialog
      conversation-IsUnderWay
      (tap telegram 11 clock finish_button first_screen stop telegram-IsReachable refl
        finish_on_first (λ e. cc))
      telegram-IsReachable asked_shows continue_on_dialog (λ e. cc)
