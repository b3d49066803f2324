-- ===== src/Broadcasts/Finished.antt =====
-- A run that meets no exception is one pass over the recipients, however it is cut into batches.
use testify.Common.{
  ℕ, zero, suc, true, some, List, [], ◌∷◌, ◌++◌, ◌≡◌, ◌<◌, length, Distinct, find-update, refl,
  arith, ap, sym, subst, take,
}
use testify.Models.{User}
use testify.Broadcasts.Repository.{
  Broadcast, Store, get_by_id, is_in_progress, record_progress, mark_completed, completed_row,
  has_id, is_running,
}
use testify.Broadcasts.Runner.{
  Telegram, Progress, Batch, run_broadcast, done, start_of, batch_size, run_recipients, complete,
  then_run,
}
use testify.Broadcasts.Order.{IsChain, drop, user_id, IsChain-recipients, IsChain-take}
use testify.Broadcasts.Pass.{pass, IsCalm, deliver-pass, pass-IsKept}
use testify.Broadcasts.Batches.{
  recipients_of, passed_row, length-drop_le, same_id, after_batch, after_batch-found,
  run_one_batch-recipients, after_batch-recipients, pass-batches,
}

-- The run ended, the announcement has the counts and the cursor of the pass, and the students were
-- handled as in the pass.
pub record IsPassed (broadcast_id now : ℕ) (b : Broadcast) (p : Progress) (out : Batch)
    : Type 0 where
  pub ended : out.ending ≡ done
  pub row : get_by_id broadcast_id out.store ≡ some (completed_row now (passed_row p b))
  pub users : out.store.db ≡ p.db
  pub students : out.handled ≡ p.handled

module _ (telegram : Telegram) (broadcast_id now : ℕ) where
  -- The last batch: nobody is left.
  pub complete-IsPassed :
      (b : Broadcast) (w : Store)
      → get_by_id broadcast_id w ≡ some b
      → is_in_progress b.status ≡ true
      → IsPassed broadcast_id now b (start_of b w.db) (complete broadcast_id now w)
  unfolding mark_completed get_by_id
  complete-IsPassed b w found live = record {
    ended = refl;
    row =
        rw
          (
            find-update (is_running broadcast_id) (has_id broadcast_id) (completed_row now)
                w.broadcasts (λ x. refl),
            found,
            same_id telegram broadcast_id now b w found,
            live,
          )
          refl;
    users = refl;
    students = refl;
  }

module _ (telegram : Telegram) (broadcast_id now : ℕ) (calm : IsCalm telegram) where
  -- What a run with less fuel does.
  abbrev Runs : ℕ → Type 0
  Runs fuel =
      (b : Broadcast) (w : Store)
      → get_by_id broadcast_id w ≡ some b
      → is_in_progress b.status ≡ true
      → Distinct user_id w.db.users
      → length (recipients_of b w) < fuel
      → IsPassed broadcast_id now b (pass telegram (recipients_of b w) (start_of b w.db))
          (run_broadcast telegram broadcast_id now fuel w)

  batch-IsPassed :
      (fuel : ℕ) (b : Broadcast) (w : Store) (recipients : List User)
      → Runs fuel
      → recipients_of b w ≡ recipients
      → get_by_id broadcast_id w ≡ some b
      → is_in_progress b.status ≡ true
      → Distinct user_id w.db.users
      → length recipients < suc fuel
      → IsPassed broadcast_id now b (pass telegram recipients (start_of b w.db)) (
          then_run
            (run_recipients telegram broadcast_id now w b (take batch_size recipients))
            (run_broadcast telegram broadcast_id now fuel))
  unfolding record_progress
  batch-IsPassed fuel b w [] runs left found live apart enough =
      complete-IsPassed telegram broadcast_id now b w found live
  batch-IsPassed fuel b w (u ∷ xs) runs left found live apart enough =
      let start = start_of b w.db in
      let p = pass telegram (take batch_size (u ∷ xs)) start in
      let b' = passed_row p b in
      let w' = after_batch telegram broadcast_id now p w in
      let rest = drop batch_size (u ∷ xs) in
      let chain =
        subst (IsChain b.last_user_id) left (IsChain-recipients b.last_user_id w.db.users apart) in
      let kept =
        pass-IsKept telegram (take batch_size (u ∷ xs)) b.last_user_id start
          (IsChain-take batch_size b.last_user_id (u ∷ xs) chain) apart in
      let left' : recipients_of b' w' ≡ rest =
        subst
          (λ l.
            let q = pass telegram (take batch_size l) start in
            recipients_of (passed_row q b) (after_batch telegram broadcast_id now q w)
            ≡ drop batch_size l)
          left (after_batch-recipients telegram broadcast_id now b w apart) in
      let shorter = length-drop_le 24 xs in
      let fits = subst (λ l. length l < fuel) (sym left') (omega (arith, shorter, enough)) in
      let later =
        subst
          (λ l.
            IsPassed broadcast_id now b' (pass telegram l (start_of b' p.db))
              (run_broadcast telegram broadcast_id now fuel w'))
          left'
          (runs b' w' (after_batch-found telegram broadcast_id now b p w found) live kept.1 fits) in
      rw (deliver-pass telegram (take batch_size (u ∷ xs)) start calm) (
        subst
          (λ r.
            IsPassed broadcast_id now b r
              (record (run_broadcast telegram broadcast_id now fuel w') {
                handled = (run_broadcast telegram broadcast_id now fuel w').handled ++ p.handled;
              }))
          (sym (pass-batches telegram broadcast_id now b w.db (u ∷ xs)))
          (record {
            ended = later.ended;
            row = later.row;
            users = later.users;
            students = ap (λ h. h ++ p.handled) later.students;
          }))

  pub run_broadcast-Runs : (fuel : ℕ) → Runs fuel
  unfolding run_broadcast
  run_broadcast-Runs zero b w found live apart enough = absurd (omega (arith, enough))
  run_broadcast-Runs (suc fuel) b w found live apart enough =
      subst
        (λ x.
          IsPassed broadcast_id now b (pass telegram (recipients_of b w) (start_of b w.db))
            (then_run x (run_broadcast telegram broadcast_id now fuel)))
        (sym (run_one_batch-recipients telegram broadcast_id now b w found live))
        (batch-IsPassed fuel b w (recipients_of b w) (run_broadcast-Runs fuel) refl found live apart
          enough)
