-- ===== src/Broadcasts/Crash.antt =====
-- What a run that an exception may end leaves behind.
use testify.Broadcasts.Finished.{complete-IsPassed}
use testify.Broadcasts.Batches.{
  recipients_of, passed_row, after_batch, after_batch-found, run_one_batch-recipients,
}
use testify.Common.{
  ℕ, zero, suc, Bool, true, false, some, List, [], ◌∷◌, ◌≡◌, ◌≤◌, ◌⊎◌, ◌+◌, ◌==◌, ◌&&◌, leb, select,
  count, refl, arith, ap, ◌∙◌, sym, Distinct, count-false, subst, Bool-cases, inl, inr, ◌++◌, take,
}
use testify.Models.{User}
use testify.Broadcasts.Repository.{
  Broadcast, Store, get_by_id, is_in_progress, is_recipient_after, completed_row, record_progress,
  mark_completed,
}
use testify.Broadcasts.Runner.{
  Telegram, Progress, CopyStatus, Batch, deliver, done, start_of, batch_size, crashed,
  commit_progress, then_run, run_recipients, complete, run_broadcast,
}
use testify.Broadcasts.Order.{
  IsChain, last_id, user_id, count-order_by_id, IsChain-recipients, IsChain-take, last_id_le,
}
use testify.Broadcasts.Pass.{pass, IsKept, pass-IsKept, pass-cursor}
use testify.Broadcasts.Once.{handled_id, pass-handled}
use testify.Broadcasts.Between.{
  is_between, count-between_split, count-between_select, count-take_le, deliver-completes,
}

-- What a run leaves of the announcement `b` in `w`: its row `b'`, whose cursor is not behind that of
-- `b`. The recipients after the cursor are those of `w`, the recipients up to the cursor were handled,
-- and the announcement is still running unless the run was done.
pub record IsResumable (broadcast_id : ℕ) (b : Broadcast) (w : Store) (b' : Broadcast) (out : Batch)
    : Type 0 where
  pub row : get_by_id broadcast_id out.store ≡ some b'
  pub cursor : b.last_user_id ≤ b'.last_user_id
  pub rest : IsKept b'.last_user_id w.db out.store.db
  pub covered :
      (k : ℕ)
      → count (is_between k b.last_user_id b'.last_user_id) w.db.users
        ≤ count (handled_id k) out.handled
  pub running : (is_in_progress b'.status ≡ true) ⊎ (out.ending ≡ done)

module _ (telegram : Telegram) (broadcast_id now : ℕ) where
  -- A run that changes nothing but the status.
  stays-IsResumable :
      (b b' : Broadcast) (w : Store) (out : Batch)
      → get_by_id broadcast_id out.store ≡ some b'
      → b'.last_user_id ≡ b.last_user_id
      → out.store.db ≡ w.db
      → Distinct user_id w.db.users
      → (is_in_progress b'.status ≡ true) ⊎ (out.ending ≡ done)
      → IsResumable broadcast_id b w b' out
  stays-IsResumable b b' w out found same db apart running = record {
    row = found;
    cursor = omega (arith, same);
    rest = rw db ((λ l le. refl), apart);
    covered = λ k.
        let nobody =
          count-false (is_between k b.last_user_id b.last_user_id) w.db.users (λ u. ground arith) in
        rw same (omega (arith, nobody));
    running = running;
  }

  batch-covered :
      (k : ℕ) (b : Broadcast) (w : Store) (recipients : List User)
      → recipients_of b w ≡ recipients
      → Distinct user_id w.db.users
      → let batch = take batch_size recipients in
        count (is_between k b.last_user_id (last_id b.last_user_id batch)) w.db.users
        ≤ count (handled_id k) (pass telegram batch (start_of b w.db)).handled
  unfolding count
  batch-covered k b w recipients left apart =
      let batch = take batch_size recipients in
      let d = last_id b.last_user_id batch in
      let chosen = count-between_select k b.last_user_id d w.db.users in
      let order =
        count-order_by_id (λ u. (u.id == k) && leb u.id d)
          (select (is_recipient_after b.last_user_id) w.db.users) in
      let same = ap (count (λ u. (u.id == k) && leb u.id d)) left in
      let chain =
        subst (IsChain b.last_user_id) left (IsChain-recipients b.last_user_id w.db.users apart) in
      let taken = count-take_le k batch_size b.last_user_id recipients chain in
      let all = pass-handled telegram k batch (start_of b w.db) in omega arith

  count-between_kept :
      (k c d : ℕ) (users users' : List User)
      → select (is_recipient_after c) users' ≡ select (is_recipient_after c) users
      → count (is_between k c d) users' ≡ count (is_between k c d) users
  count-between_kept k c d users users' same =
      count-between_select k c d users'
      ∙ (ap (count (λ u. (u.id == k) && leb u.id d)) same ∙ sym (count-between_select k c d users))

  count-append :
      (k : ℕ) (xs ys : List (ℕ × CopyStatus))
      → count (handled_id k) (xs ++ ys) ≡ count (handled_id k) xs + count (handled_id k) ys
  unfolding count
  count-append k [] ys = omega arith
  count-append k (x ∷ xs) ys = let rest = count-append k xs ys in omega (arith, rest)

  commit_progress-crashed :
      (w : Store) (r : Progress × Bool)
      → r.1 ≡ true
      → commit_progress broadcast_id w r
        ≡ record { store = w; handled = r.0.handled; ending = crashed; reports = [] }
  commit_progress-crashed w (p, true) h = refl
  commit_progress-crashed w (p, false) h = cc

  -- What a run with less fuel leaves.
  abbrev Leaves : ℕ → Type 0
  Leaves fuel =
      (b : Broadcast) (w : Store)
      → get_by_id broadcast_id w ≡ some b
      → is_in_progress b.status ≡ true
      → Distinct user_id w.db.users
      → (b' : Broadcast) × IsResumable broadcast_id b w b'
          (run_broadcast telegram broadcast_id now fuel w)

  later-IsResumable :
      (b : Broadcast) (w : Store) (recipients : List User) (out : Batch) (b' : Broadcast)
      → recipients_of b w ≡ recipients
      → Distinct user_id w.db.users
      → let p = pass telegram (take batch_size recipients) (start_of b w.db) in
        IsResumable broadcast_id (passed_row p b) (after_batch telegram broadcast_id now p w) b' out
        → IsResumable broadcast_id b w b' (record out { handled = out.handled ++ p.handled })
  unfolding record_progress
  later-IsResumable b w recipients out b' left apart later =
      let batch = take batch_size recipients in
      let start = start_of b w.db in
      let p = pass telegram batch start in
      let c = last_id b.last_user_id batch in
      let chain =
        subst (IsChain b.last_user_id) left (IsChain-recipients b.last_user_id w.db.users apart) in
      let taken = IsChain-take batch_size b.last_user_id recipients chain in
      let kept = pass-IsKept telegram batch b.last_user_id start taken apart in
      let low = last_id_le b.last_user_id batch taken in
      let at = pass-cursor telegram batch start in
      let on = later.cursor in
      record {
        row = later.row;
        cursor = omega (arith, low, at, on);
        rest = ((λ l le. later.rest.0 l le ∙ kept.0 l (omega (arith, at, on, le))), later.rest.1);
        covered = λ k.
            let split = count-between_split k b.last_user_id c b'.last_user_id w.db.users in
            let first = batch-covered k b w recipients left apart in
            let same =
              count-between_kept k c b'.last_user_id w.db.users p.db.users
                (kept.0 c (omega arith)) in
            let second =
              subst
                (λ d.
                  count (is_between k d b'.last_user_id) p.db.users
                  ≤ count (handled_id k) out.handled)
                at (later.covered k) in
            let parts = count-append k out.handled p.handled in
            omega (arith, split, first, same, second, parts);
        running = later.running;
      }

  batch-IsResumable :
      (fuel : ℕ) (b : Broadcast) (w : Store) (recipients : List User)
      → Leaves fuel
      → recipients_of b w ≡ recipients
      → get_by_id broadcast_id w ≡ some b
      → is_in_progress b.status ≡ true
      → Distinct user_id w.db.users
      → (b' : Broadcast) × IsResumable broadcast_id b w b' (
          then_run
            (run_recipients telegram broadcast_id now w b (take batch_size recipients))
            (run_broadcast telegram broadcast_id now fuel))
  unfolding mark_completed record_progress
  batch-IsResumable fuel b w [] leaves left found live apart = (
    completed_row now b,
    stays-IsResumable b (completed_row now b) w (complete broadcast_id now w)
        (complete-IsPassed telegram broadcast_id now b w found live).row refl refl apart (inr refl),
  )
  batch-IsResumable fuel b w (u ∷ xs) leaves left found live apart =
      let batch = take batch_size (u ∷ xs) in
      let start = start_of b w.db in
      elim (Bool-cases (deliver telegram batch start).1) [
        | inl e ↦ (
          b,
          rw (commit_progress-crashed w (deliver telegram batch start) e)
              (stays-IsResumable b b w _ found refl refl apart (inl live)),
        )
        | inr e ↦
            let p = pass telegram batch start in
            let chain =
              subst (IsChain b.last_user_id) left
                (IsChain-recipients b.last_user_id w.db.users apart) in
            let kept =
              pass-IsKept telegram batch b.last_user_id start
                (IsChain-take batch_size b.last_user_id (u ∷ xs) chain) apart in
            let later =
              leaves (passed_row p b) (after_batch telegram broadcast_id now p w)
                (after_batch-found telegram broadcast_id now b p w found) live kept.1 in
            (
              later.0,
              rw (deliver-completes telegram batch start e)
                  (later-IsResumable b w (u ∷ xs) _ later.0 left apart later.1),
            )
      ]

  pub run_broadcast-Leaves : (fuel : ℕ) → Leaves fuel
  unfolding run_broadcast
  run_broadcast-Leaves zero b w found live apart =
      (b, stays-IsResumable b b w _ found refl refl apart (inl live))
  run_broadcast-Leaves (suc fuel) b w found live apart =
      subst
        (λ x.
          (b' : Broadcast) × IsResumable broadcast_id b w b'
            (then_run x (run_broadcast telegram broadcast_id now fuel)))
        (sym (run_one_batch-recipients telegram broadcast_id now b w found live))
        (batch-IsResumable fuel b w (recipients_of b w) (run_broadcast-Leaves fuel) refl found live
          apart)
