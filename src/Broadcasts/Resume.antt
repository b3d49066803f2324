-- ===== src/Broadcasts/Resume.antt =====
-- A run that an exception ended, and the run that takes it up again at the next start.
use testify.Common.{
  ℕ, true, some, List, [], ◌∷◌, ◌≡◌, ◌≤◌, ◌<◌, ◌+◌, ◌==◌, ◌&&◌, inl, inr, length, select, count,
  Distinct, refl, arith, ap, ◌∙◌, sym, subst, length-select, count_le_length,
}
use testify.Models.{User}
use testify.Broadcasts.Repository.{
  Broadcast, Store, get_by_id, is_in_progress, is_recipient_after, order_by_id, insert_by_id,
}
use testify.Broadcasts.Runner.{Telegram, run_broadcast, done}
use testify.Broadcasts.Order.{user_id}
use testify.Broadcasts.Pass.{IsCalm}
use testify.Broadcasts.Batches.{recipients_of}
use testify.Broadcasts.Once.{handled_id, run_broadcast-once, count-select}
use testify.Broadcasts.Between.{is_between}
use testify.Broadcasts.Crash.{run_broadcast-Leaves}

length-insert_by_id : (u : User) (xs : List User) → length (insert_by_id u xs) ≡ 1 + length xs
unfolding insert_by_id
length-insert_by_id u [] = refl
length-insert_by_id u (x ∷ xs) = ground (arith, length-insert_by_id u xs)

length-order_by_id : (xs : List User) → length (order_by_id xs) ≡ length xs
unfolding order_by_id
length-order_by_id [] = refl
length-order_by_id (x ∷ xs) =
    let rest = length-order_by_id xs in
    let inserted = length-insert_by_id x (order_by_id xs) in omega (arith, rest, inserted)

length-recipients :
    (c : ℕ) (users : List User)
    → length (order_by_id (select (is_recipient_after c) users)) ≤ length users
length-recipients c users =
    let order = length-order_by_id (select (is_recipient_after c) users) in
    let chosen = length-select (is_recipient_after c) users in
    let most = count_le_length (is_recipient_after c) users in omega (arith, order, chosen, most)

count-cursor :
    (k c d : ℕ) (users : List User)
    → count (λ u. (u.id == k) && is_recipient_after c u) users
      ≤ count (is_between k c d) users + count (λ u. (u.id == k) && is_recipient_after d u) users
unfolding count
count-cursor k c d [] = omega arith
count-cursor k c d (u ∷ users) = ground (arith, count-cursor k c d users)

count-kept :
    (k c : ℕ) (users users' : List User)
    → select (is_recipient_after c) users' ≡ select (is_recipient_after c) users
    → count (λ u. (u.id == k) && is_recipient_after c u) users'
      ≡ count (λ u. (u.id == k) && is_recipient_after c u) users
count-kept k c users users' same =
    sym (count-select (λ u. u.id == k) (is_recipient_after c) users')
    ∙ (ap (count (λ u. u.id == k)) same
        ∙ count-select (λ u. u.id == k) (is_recipient_after c) users)

-- However the first run was broken off, by any exception in any batch, a second run that meets none
-- ends, and every student who was a recipient when the first one began was handled in one of them.
-- The ids of the users are unique and the second run has more fuel than there are users.
pub resume-reaches_all :
    (telegram telegram' : Telegram) (broadcast_id now now' fuel fuel' : ℕ) (b : Broadcast)
    (w : Store)
    → get_by_id broadcast_id w ≡ some b
    → is_in_progress b.status ≡ true
    → Distinct user_id w.db.users
    → let out = run_broadcast telegram broadcast_id now fuel w in
      let out' = run_broadcast telegram' broadcast_id now' fuel' out.store in
      (out.ending ≡ done → ⊥)
      → IsCalm telegram'
      → length w.db.users < fuel'
      → (out'.ending ≡ done)
        × ((k : ℕ)
            → count (λ u. (u.id == k) && is_recipient_after b.last_user_id u) w.db.users
              ≤ count (handled_id k) out.handled + count (handled_id k) out'.handled)
resume-reaches_all telegram telegram' broadcast_id now now' fuel fuel' b w found live apart broken
      calm enough =
    let out = run_broadcast telegram broadcast_id now fuel w in
    let (b', left) = run_broadcast-Leaves telegram broadcast_id now fuel b w found live apart in
    let same = left.rest.0 b'.last_user_id (omega arith) in
    let few = length-recipients b'.last_user_id w.db.users in
    let fits : length (recipients_of b' out.store) < fuel' =
      subst (λ l. length (order_by_id l) < fuel') (sym same) (omega (arith, few, enough)) in
    let live' : is_in_progress b'.status ≡ true = elim left.running [
      | inl e ↦ e
      | inr e ↦ absurd (broken e)
    ] in
    let second =
      run_broadcast-once telegram' broadcast_id now' fuel' b' out.store calm left.row live'
        left.rest.1 fits in
    (
      second.0.ended,
      λ k.
          let cut = count-cursor k b.last_user_id b'.last_user_id w.db.users in
          let before = left.covered k in
          let after = second.1.1 k in
          let kept = count-kept k b'.last_user_id w.db.users out.store.db.users same in
          omega (arith, cut, before, after, kept),
    )
