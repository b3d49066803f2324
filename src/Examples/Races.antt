-- ===== src/Examples/Races.antt =====
-- Two finishing calls and two claims of one warning on the open attempt of the small database.
use testify.Common.{ℕ, ◌≡◌, refl, ◌≤◌, arith, List, [], ◌∷◌, count, find, update}
use testify.Attempts.Repository.{ten_min, get_by_id, mark_finished, mark_warning_sent}
use testify.Attempts.Service.{user_request, time_out}
use testify.Attempts.Race.{finish_begin, tap_begin, warn_begin, System, run}
use testify.Attempts.Race.Owner.{owners, owners_le_one}
use testify.Attempts.Race.Claims.{claimants, claimants_le_one}
use testify.Attempts.Race.Frozen.{run_frozen}
use testify.Examples.Data.{database, letter_a}

abbrev crowd : System
crowd = record {
  db = database;
  actors =
      finish_begin user_request
      ∷ finish_begin time_out
      ∷ tap_begin 1 46 letter_a
      ∷ warn_begin ten_min
      ∷ warn_begin ten_min
      ∷ [];
}

-- Both finishing calls read before either writes, and the tap checks the attempt before that.
abbrev early : List (ℕ × ℕ)
early = (2, 1) ∷ (2, 2) ∷ (3, 3) ∷ (0, 4) ∷ (1, 4) ∷ (0, 5) ∷ (1, 5) ∷ (0, 6) ∷ (1, 6) ∷ (0, 7) ∷ []

abbrev late : List (ℕ × ℕ)
late = (1, 8) ∷ (2, 9) ∷ (4, 10) ∷ (0, 11) ∷ (1, 12) ∷ []

owners_le_one_example : owners (run 10 early crowd).actors ≤ 1
unfolding count
owners_le_one_example = owners_le_one 10 early crowd (omega arith) refl

claimants_le_one_example : claimants ten_min (run 10 early crowd).actors ≤ 1
unfolding count
claimants_le_one_example = claimants_le_one ten_min 10 early crowd (omega arith) refl

early_owner : 1 ≤ owners (run 10 early crowd).actors
unfolding run count get_by_id find mark_warning_sent update mark_finished
early_owner = omega arith

run_frozen_example : (run 10 late (run 10 early crowd)).db ≡ (run 10 early crowd).db
unfolding count
run_frozen_example = run_frozen 10 early late crowd (omega arith) refl early_owner
