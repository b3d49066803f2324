-- ===== src/Examples/Reminders.antt =====
-- Three hourly sweeps over the receipts of the small database; the first send fails.
use testify.Users.Repository.{get_by_id}
use testify.Common.{
  ℕ, Bool, true, false, List, [], ◌∷◌, ◌≡◌, refl, ◌*◌, ◌+◌, not, if◌then◌else◌, select, find, ltb,
  ◌&&◌, arith, count,
}
use testify.Receipts.Reminder.{
  Marker, marker_eq, day, Markers, not_posted, due, repost_unnotified_receipts, expires_at,
  pending_receipt_reminder_job, remind_all, remind, due_at, list_pending_older_than,
  list_pending_unnotified, post_cards, attach_all, order_by_age, insert_by_age,
}
use testify.Receipts.Reminder.Once.{
  Round, was_sendable, is_sendable, sweeps, times_sent, sweeps-once,
}
use testify.Examples.Data.{database}

ltb-if :
    (test : Bool) (a x y : ℕ) → ltb a (if test then x else y) ≡ (if test then ltb a x else ltb a y)
ltb-if true a x y = refl
ltb-if false a x y = refl

ltb-if_zero :
    (test : Bool) (a y : ℕ) → ltb a (if test then 0 else y) ≡ (if test then false else ltb a y)
ltb-if_zero test a y = ground arith

-- A marker's state is the time at which it expires.
abbrev markers : Markers
markers = record {
  State = Marker → ℕ;
  exists = λ now m s. ltb now (s m);
  set_nx = λ ttl now m s. (
    not (ltb now (s m)),
    λ n. if marker_eq m n && not (ltb now (s m)) then expires_at ttl now else s n,
  );
  delete = λ m s n. if marker_eq m n then 0 else s n;
  set_nx-exists = λ ttl now m s. refl;
  exists-set_nx = λ ttl now later m n s from. ltb-if _ later _ _;
  exists-delete = λ later m n s. ltb-if_zero _ later _;
}

abbrev no_markers : markers.State
no_markers m = 0

-- the sweep that starts so many hours after the epoch
abbrev sweep_at : ℕ → Bool → Round
sweep_at hour works = record {
  post = λ r. not_posted;
  sends = λ r. works;
  now = 100 + hour * 3600000000;
  db = database;
}

abbrev rounds : List Round
rounds = sweep_at 25 false ∷ sweep_at 26 true ∷ sweep_at 27 true ∷ []

sweeps-once_example :
    times_sent
      (record { receipt_id = 30; label = day })
      (sweeps markers rounds (record { redis = no_markers; sent = [] }))
    ≡ 1
unfolding was_sendable is_sendable due repost_unnotified_receipts select get_by_id find
sweeps-once_example =
    sweeps-once markers (record { receipt_id = 30; label = day }) 0 rounds no_markers
      (omega arith, omega arith, (omega arith, omega arith, (omega arith, omega arith, tt)))
      (λ t from. ground arith)

-- Thirty days and an hour after the first reminder its marker has expired, and it is sent again.
reminded_again :
    times_sent
      (record { receipt_id = 30; label = day })
      (sweeps markers
        (sweep_at 25 true ∷ sweep_at 746 true ∷ [])
        (record { redis = no_markers; sent = [] }))
    ≡ 2
unfolding sweeps pending_receipt_reminder_job remind_all remind due due_at list_pending_older_than
    repost_unnotified_receipts list_pending_unnotified post_cards attach_all order_by_age
    insert_by_age select get_by_id find count
reminded_again = refl
