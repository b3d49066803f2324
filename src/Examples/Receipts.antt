-- ===== src/Examples/Receipts.antt =====
-- Receipts of the small database.
use testify.Receipts.Repository
use testify.Common.{◌≡◌, refl, ℕ, some, ◌≤◌, arith, true, count, find}
use testify.Effects.{err, outcome, after, receipt_limit_exceeded}
use testify.Users.Repository as Users
use testify.Receipts.Repository.{count_pending_for_user}
use testify.Receipts.Submit.{submit}
use testify.Receipts.Submit.Cap.{submit_refused, submit_cap}
use testify.Receipts.Review.{decide, approval}
use testify.Receipts.Review.Ban.{decide_keeps_ban}
use testify.Examples.Data.{database, applicant, outcast, letter_a}

over_cap :
    outcome (submit 1 8 32 80 (some 7) applicant letter_a letter_a) database
    ≡ err receipt_limit_exceeded
unfolding submit count_pending_for_user count
over_cap = refl

submit_refused_example :
    after (submit 1 8 32 80 (some 7) applicant letter_a letter_a) database ≡ database
submit_refused_example =
    submit_refused 1 8 32 80 (some 7) applicant letter_a letter_a database receipt_limit_exceeded
      over_cap

few_pending : (u : ℕ) → count_pending_for_user u database ≤ 3
unfolding count_pending_for_user count
few_pending u = ground arith

submit_cap_example :
    count_pending_for_user 3
      (after (submit 3 8 32 80 (some 100000000) applicant letter_a letter_a) database)
    ≤ 3
submit_cap_example =
    submit_cap 3 8 32 80 (some 100000000) applicant letter_a letter_a database few_pending 3

decide_keeps_ban_example :
    Users.get_by_id 2 (after (decide 31 (approval true 9 90 91)) database) ≡ some outcast
unfolding Users.get_by_id find
decide_keeps_ban_example = decide_keeps_ban 2 outcast 31 (approval true 9 90 91) database refl refl
