-- ===== src/Broadcasts/Batches.antt =====
-- One batch of the runner, and what it leaves to the next.
use testify.Common.{
  ℕ, zero, suc, true, some, List, [], ◌∷◌, ◌++◌, ◌≡◌, ◌≤◌, length, select, Distinct, find-update,
  refl, arith, ap, ◌∙◌, sym, find-some, take,
}
use testify.Models.{User, Database}
use testify.Broadcasts.Repository.{
  Broadcast, Store, get_by_id, is_in_progress, is_recipient_after, order_by_id, list_approved_after,
  record_progress, progressed, has_id,
}
use testify.Broadcasts.Runner.{
  Telegram, Progress, run_one_batch, start_of, batch_size, run_recipients,
}
use testify.Broadcasts.Order.{
  last_id, drop, user_id, IsChain-recipients, recipients-rest, IsChain-take,
}
use testify.Broadcasts.Pass.{
  pass, pass-append, pass-with_handled, pass-cursor, pass-IsKept, with_handled,
}

-- The recipients that the announcement has before it.
abbrev pub recipients_of : Broadcast → Store → List User
recipients_of b w = order_by_id (select (is_recipient_after b.last_user_id) w.db.users)

-- The row after a pass.
abbrev pub passed_row : Progress → Broadcast → Broadcast
passed_row p b = progressed p.sent_count p.blocked_count p.error_count p.cursor b

take-drop : (n : ℕ) (xs : List User) → take n xs ++ drop n xs ≡ xs
take-drop zero xs = refl
take-drop (suc n) [] = refl
take-drop (suc n) (x ∷ xs) = ap (λ r. x ∷ r) (take-drop n xs)

pub length-drop_le : (n : ℕ) (xs : List User) → length (drop n xs) ≤ length xs
length-drop_le zero xs = omega arith
length-drop_le (suc n) [] = omega arith
length-drop_le (suc n) (x ∷ xs) = let rest = length-drop_le n xs in omega arith

module _ (telegram : Telegram) (broadcast_id now : ℕ) where
  pub same_id :
      (b : Broadcast) (w : Store) → get_by_id broadcast_id w ≡ some b → has_id broadcast_id b ≡ true
  unfolding get_by_id
  same_id b w found = find-some (has_id broadcast_id) w.broadcasts b found

  -- The store after a batch that ended with the progress `p`.
  abbrev pub after_batch : Progress → Store → Store
  after_batch p w =
      record_progress broadcast_id p.sent_count p.blocked_count p.error_count p.cursor
        (record w { db = p.db })

  pub after_batch-found :
      (b : Broadcast) (p : Progress) (w : Store)
      → get_by_id broadcast_id w ≡ some b
      → get_by_id broadcast_id (after_batch p w) ≡ some (passed_row p b)
  unfolding get_by_id record_progress
  after_batch-found b p w found =
      rw
        (
          find-update (has_id broadcast_id) (has_id broadcast_id) (passed_row p) w.broadcasts
              (λ x. refl),
          found,
          same_id b w found,
        )
        refl

  pub run_one_batch-recipients :
      (b : Broadcast) (w : Store)
      → get_by_id broadcast_id w ≡ some b
      → is_in_progress b.status ≡ true
      → run_one_batch telegram broadcast_id now w
        ≡ run_recipients telegram broadcast_id now w b (take batch_size (recipients_of b w))
  unfolding run_one_batch list_approved_after
  run_one_batch-recipients b w found live = rw (found, live) refl

  -- After a batch the rest of the recipients are before the announcement.
  pub after_batch-recipients :
      (b : Broadcast) (w : Store)
      → Distinct user_id w.db.users
      → let p = pass telegram (take batch_size (recipients_of b w)) (start_of b w.db) in
        recipients_of (passed_row p b) (after_batch p w) ≡ drop batch_size (recipients_of b w)
  unfolding record_progress
  after_batch-recipients b w apart =
      let recipients = recipients_of b w in
      let batch = take batch_size recipients in
      let p = pass telegram batch (start_of b w.db) in
      let chain =
        IsChain-take batch_size b.last_user_id recipients
          (IsChain-recipients b.last_user_id w.db.users apart) in
      let kept = pass-IsKept telegram batch b.last_user_id (start_of b w.db) chain apart in
      ap (λ k. order_by_id (select (is_recipient_after k) p.db.users))
        (pass-cursor telegram batch (start_of b w.db))
      ∙ (ap order_by_id (kept.0 (last_id b.last_user_id batch) (omega arith))
          ∙ recipients-rest batch_size b.last_user_id w.db.users apart)

  -- A batch and the pass over the rest are the pass over all.
  pub pass-batches :
      (b : Broadcast) (db : Database) (recipients : List User)
      → let p = pass telegram (take batch_size recipients) (start_of b db) in
        pass telegram recipients (start_of b db)
        ≡ with_handled telegram p.handled
            (pass telegram (drop batch_size recipients) (start_of (passed_row p b) p.db))
  pass-batches b db recipients =
      let batch = take batch_size recipients in
      let p = pass telegram batch (start_of b db) in
      ap (λ xs. pass telegram xs (start_of b db)) (sym (take-drop batch_size recipients))
      ∙ (pass-append telegram batch (drop batch_size recipients) (start_of b db)
          ∙ pass-with_handled telegram (drop batch_size recipients) p.handled
              (start_of (passed_row p b) p.db))
