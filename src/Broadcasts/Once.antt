-- ===== src/Broadcasts/Once.antt =====
-- Every student is reached once by a run that meets no exception.
use testify.Common.{
  ℕ, Bool, true, some, List, [], ◌∷◌, ◌≡◌, ◌<◌, ◌+◌, ◌==◌, ◌&&◌, length, select, count, Distinct,
  refl, arith, ap, ◌∙◌,
}
use testify.Models.{User}
use testify.Broadcasts.Repository.{Broadcast, Store, get_by_id, is_in_progress, is_recipient_after}
use testify.Broadcasts.Runner.{
  Telegram, Progress, CopyStatus, run_broadcast, start_of, advance, copy_broadcast_message, sent,
  blocked, error,
}
use testify.Broadcasts.Order.{user_id, count-order_by_id}
use testify.Broadcasts.Pass.{pass, IsCalm, status_of}
use testify.Broadcasts.Batches.{recipients_of}
use testify.Broadcasts.Finished.{IsPassed, run_broadcast-Runs}

abbrev pub handled_id : ℕ → ℕ × CopyStatus → Bool
handled_id k h = h.0 == k

-- The messages of a progress, by what became of them.
abbrev pub total_of : Progress → ℕ
total_of p = p.sent_count + p.blocked_count + p.error_count

module _ (telegram : Telegram) where
  advance-handled :
      (k : ℕ) (u : User) (status : CopyStatus) (p : Progress)
      → count (handled_id k) (advance u status p).handled
        ≡ count (λ x. x.id == k) (u ∷ []) + count (handled_id k) p.handled
  unfolding count
  advance-handled k u sent p = ground arith
  advance-handled k u blocked p = ground arith
  advance-handled k u error p = ground arith

  pub pass-handled :
      (k : ℕ) (xs : List User) (p : Progress)
      → count (handled_id k) (pass telegram xs p).handled
        ≡ count (λ x. x.id == k) xs + count (handled_id k) p.handled
  unfolding count
  pass-handled k [] p = omega arith
  pass-handled k (u ∷ xs) p =
      let status = status_of (copy_broadcast_message telegram u) in
      let first = advance-handled k u status p in
      let rest = pass-handled k xs (advance u status p) in omega arith

  advance-total :
      (u : User) (status : CopyStatus) (p : Progress)
      → total_of (advance u status p) ≡ 1 + total_of p
  advance-total u sent p = omega arith
  advance-total u blocked p = omega arith
  advance-total u error p = omega arith

  pass-total :
      (xs : List User) (p : Progress) → total_of (pass telegram xs p) ≡ length xs + total_of p
  pass-total [] p = omega arith
  pass-total (u ∷ xs) p =
      let status = status_of (copy_broadcast_message telegram u) in
      let first = advance-total u status p in
      let rest = pass-total xs (advance u status p) in omega arith

pub count-select :
    (q p : User → Bool) (xs : List User) → count q (select p xs) ≡ count (λ x. q x && p x) xs
unfolding count select
count-select q p [] = refl
count-select q p (x ∷ xs) = ground (arith, count-select q p xs)

-- Where Telegram raises nothing but its own exceptions and the fuel exceeds the number of recipients
-- that are left, the run ends: the announcement is completed, with the counts and the cursor of one
-- pass over the recipients in the order of their ids, and the users are as that pass leaves them. A
-- student is handled once if he was a recipient after the cursor and not at all otherwise, and the
-- counts grow by the number of the recipients. The ids of the users are unique.
pub run_broadcast-once :
    (telegram : Telegram) (broadcast_id now fuel : ℕ) (b : Broadcast) (w : Store)
    → IsCalm telegram
    → get_by_id broadcast_id w ≡ some b
    → is_in_progress b.status ≡ true
    → Distinct user_id w.db.users
    → length (recipients_of b w) < fuel
    → let out = run_broadcast telegram broadcast_id now fuel w in
      let p = pass telegram (recipients_of b w) (start_of b w.db) in
      IsPassed broadcast_id now b p out
      × ((total_of p ≡ length (recipients_of b w) + total_of (start_of b w.db))
          × ((k : ℕ)
              → count (handled_id k) out.handled
                ≡ count (λ u. (u.id == k) && is_recipient_after b.last_user_id u) w.db.users))
unfolding count
run_broadcast-once telegram broadcast_id now fuel b w calm found live apart enough =
    let passed =
      run_broadcast-Runs telegram broadcast_id now calm fuel b w found live apart enough in
    (
      passed,
      (
        pass-total telegram (recipients_of b w) (start_of b w.db),
        λ k. ap (count (handled_id k)) passed.students ∙ (once k),
      ),
    )
  where
    once :
        (k : ℕ)
        → count (handled_id k) (pass telegram (recipients_of b w) (start_of b w.db)).handled
          ≡ count (λ u. (u.id == k) && is_recipient_after b.last_user_id u) w.db.users
    once k =
        let all = pass-handled telegram k (recipients_of b w) (start_of b w.db) in
        let order =
          count-order_by_id (λ u. u.id == k)
            (select (is_recipient_after b.last_user_id) w.db.users) in
        let chosen = count-select (λ u. u.id == k) (is_recipient_after b.last_user_id) w.db.users in
        omega arith
