-- ===== src/Examples/Broadcasts.antt =====
-- Announcements on the small database: the students 1 and 4 are approved.
use testify.Common.{
  ℕ, some, [], ◌∷◌, ◌≡◌, ◌≤◌, ◌+◌, ◌==◌, ◌&&◌, refl, arith, count, select, find, length, Distinct,
  if◌then◌else◌,
}
use testify.Broadcasts.Repository.{
  Broadcast, Store, new_broadcast, get_by_id, is_recipient_after, order_by_id, list_approved_after,
  insert_by_id,
}
use testify.Broadcasts.Runner.{
  Telegram, delivered, forbidden, exception, retry_after, run_broadcast, run_one_batch, deliver,
  copy_from, done, crashed, start_of,
}
use testify.Broadcasts.Order.{user_id}
use testify.Broadcasts.Pass.{pass, IsCalm}
use testify.Broadcasts.Batches.{recipients_of}
use testify.Broadcasts.Finished.{IsPassed}
use testify.Broadcasts.Once.{handled_id, total_of, run_broadcast-once}
use testify.Broadcasts.Resume.{resume-reaches_all}
use testify.Examples.Data.{database}

abbrev announcement : Broadcast
announcement = new_broadcast 7 701 15 (some 1) (some 701) 2

abbrev posted : Store
posted = record { db = database; broadcasts = announcement ∷ [] }

-- The first attempt is too early, and student 4 has blocked the bot.
abbrev slow : Telegram
slow user attempt =
    if attempt == 1 then retry_after 5 else if user == 4 then forbidden else delivered

-- The connection breaks at student 4.
abbrev broken : Telegram
broken user attempt = if user == 4 then exception else delivered

slow-IsCalm : IsCalm slow
slow-IsCalm user attempt h = ground (arith, h)

posted-Distinct : Distinct user_id posted.db.users
unfolding count
posted-Distinct = (refl, (refl, (refl, (refl, tt))))

broken_crashes : (run_broadcast broken 7 900 3 posted).ending ≡ crashed
unfolding run_broadcast run_one_batch get_by_id find list_approved_after order_by_id insert_by_id
    select deliver copy_from
broken_crashes = refl

not_done : (run_broadcast broken 7 900 3 posted).ending ≡ done → ⊥
not_done h = let crash = broken_crashes in cc

run_broadcast-once_example :
    let out = run_broadcast slow 7 900 3 posted in
    let p = pass slow (recipients_of announcement posted) (start_of announcement posted.db) in
    IsPassed 7 900 announcement p out
    × ((total_of p
          ≡ length (recipients_of announcement posted) + total_of (start_of announcement posted.db))
        × ((k : ℕ)
            → count (handled_id k) out.handled
              ≡ count (λ u. (u.id == k) && is_recipient_after 0 u) posted.db.users))
unfolding get_by_id find order_by_id insert_by_id select
run_broadcast-once_example =
    run_broadcast-once slow 7 900 3 announcement posted slow-IsCalm refl refl posted-Distinct
      (omega arith)

resume-reaches_all_example :
    let out = run_broadcast broken 7 900 3 posted in
    let out' = run_broadcast slow 7 950 5 out.store in
    (out'.ending ≡ done)
    × ((k : ℕ)
        → count (λ u. (u.id == k) && is_recipient_after 0 u) posted.db.users
          ≤ count (handled_id k) out.handled + count (handled_id k) out'.handled)
unfolding get_by_id find
resume-reaches_all_example =
    resume-reaches_all broken slow 7 900 950 3 5 announcement posted refl refl posted-Distinct
      not_done slow-IsCalm (omega arith)
