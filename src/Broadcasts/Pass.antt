-- ===== src/Broadcasts/Pass.antt =====
-- One uninterrupted pass over the recipients, and what it changes.
use testify.Common.{
  ℕ, zero, suc, true, false, Option, none, some, List, [], ◌∷◌, ◌++◌, ◌≡◌, ◌≤◌, ◌==◌, ◌+◌, select,
  update, count, Distinct, refl, arith, ap, ◌∙◌, Bool-cases, inl, inr, Bool,
}
use testify.Models.{User, Database}
use testify.Users.Repository as Users
use testify.Broadcasts.Repository.{is_recipient_after}
use testify.Broadcasts.Runner.{
  Reply, Telegram, CopyStatus, Progress, sent, blocked, error, delivered, forbidden, api_error,
  exception, retry_after, copy_from, copy_broadcast_message, advance, deliver, max_send_attempts,
  after_reply,
}
use testify.Broadcasts.Order.{IsChain, last_id, user_id, last_id_le}

-- The status of a student that Telegram's replies lead to.
abbrev pub status_of : Option CopyStatus → CopyStatus
status_of none = error
status_of (some status) = status

abbrev pub pass : Telegram → List User → Progress → Progress
pass telegram [] p = p
pass telegram (u ∷ recipients) p =
    pass telegram recipients (advance u (status_of (copy_broadcast_message telegram u)) p)

-- Telegram answers with nothing but its own exceptions.
abbrev pub IsCalm : Telegram → Type 0
IsCalm telegram = (u attempt : ℕ) → telegram u attempt ≡ exception → ⊥

after_reply-some :
    (r : Reply) (attempt : ℕ) (rest : Option CopyStatus)
    → (r ≡ exception → ⊥)
    → rest ≡ some (status_of rest)
    → after_reply r attempt rest ≡ some (status_of (after_reply r attempt rest))
after_reply-some delivered attempt rest calm h = refl
after_reply-some forbidden attempt rest calm h = refl
after_reply-some api_error attempt rest calm h = refl
after_reply-some exception attempt rest calm h = absurd (calm refl)
after_reply-some (retry_after seconds) attempt rest calm h =
    elim (Bool-cases (attempt == max_send_attempts)) [ inl e ↦ rw e refl | inr e ↦ rw e h ]

copy_from-some :
    (reply : ℕ → Reply) (attempt left : ℕ)
    → ((i : ℕ) → reply i ≡ exception → ⊥)
    → copy_from reply attempt left ≡ some (status_of (copy_from reply attempt left))
unfolding copy_from
copy_from-some reply attempt zero calm = refl
copy_from-some reply attempt (suc left) calm =
    after_reply-some (reply attempt) attempt (copy_from reply (attempt + 1) left) (calm attempt)
      (copy_from-some reply (attempt + 1) left calm)

module _ (telegram : Telegram) where
  pub deliver-pass :
      (recipients : List User) (p : Progress)
      → IsCalm telegram
      → deliver telegram recipients p ≡ (pass telegram recipients p, false)
  unfolding deliver
  deliver-pass [] p calm = refl
  deliver-pass (u ∷ recipients) p calm =
      ap {B = Progress × Bool}
        (λ r. elim r [
          | none ↦ (p, true)
          | some status ↦ deliver telegram recipients (advance u status p)
        ])
        (copy_from-some (telegram u.id) 1 max_send_attempts (calm u.id))
      ∙ deliver-pass recipients (advance u (status_of (copy_broadcast_message telegram u)) p) calm

  pub pass-append :
      (xs ys : List User) (p : Progress)
      → pass telegram (xs ++ ys) p ≡ pass telegram ys (pass telegram xs p)
  pass-append [] ys p = refl
  pass-append (u ∷ xs) ys p =
      pass-append xs ys (advance u (status_of (copy_broadcast_message telegram u)) p)

  -- What was handled before does not matter to a pass.
  abbrev pub with_handled : List (ℕ × CopyStatus) → Progress → Progress
  with_handled h p = record p { handled = p.handled ++ h }

  advance-with_handled :
      (u : User) (status : CopyStatus) (h : List (ℕ × CopyStatus)) (p : Progress)
      → advance u status (with_handled h p) ≡ with_handled h (advance u status p)
  advance-with_handled u sent h p = refl
  advance-with_handled u blocked h p = refl
  advance-with_handled u error h p = refl

  pub pass-with_handled :
      (xs : List User) (h : List (ℕ × CopyStatus)) (p : Progress)
      → pass telegram xs (with_handled h p) ≡ with_handled h (pass telegram xs p)
  pass-with_handled [] h p = refl
  pass-with_handled (u ∷ xs) h p =
      let status = status_of (copy_broadcast_message telegram u) in
      ap (pass telegram xs) (advance-with_handled u status h p)
      ∙ pass-with_handled xs h (advance u status p)

  advance-cursor :
      (u : User) (status : CopyStatus) (p : Progress) → (advance u status p).cursor ≡ u.id
  advance-cursor u sent p = refl
  advance-cursor u blocked p = refl
  advance-cursor u error p = refl

  pub pass-cursor :
      (xs : List User) (p : Progress) → (pass telegram xs p).cursor ≡ last_id p.cursor xs
  pass-cursor [] p = refl
  pass-cursor (u ∷ xs) p =
      let status = status_of (copy_broadcast_message telegram u) in
      pass-cursor xs (advance u status p) ∙ ap (λ k. last_id k xs) (advance-cursor u status p)

-- ---------- the users ----------

select-blocked :
    (id k : ℕ) (users : List User)
    → id ≤ k
    → select
        (is_recipient_after k)
        (update (Users.has_id id) (λ u. record u { bot_blocked = true }) users)
      ≡ select (is_recipient_after k) users
unfolding select update
select-blocked id k [] le = refl
select-blocked id k (x ∷ users) le = let rest = select-blocked id k users le in ground (arith, rest)

count-blocked :
    (id key : ℕ) (users : List User)
    → count
        (λ u. u.id == key)
        (update (Users.has_id id) (λ u. record u { bot_blocked = true }) users)
      ≡ count (λ u. u.id == key) users
unfolding count update
count-blocked id key [] = refl
count-blocked id key (x ∷ users) = ground (arith, count-blocked id key users)

Distinct-blocked :
    (id : ℕ) (users : List User)
    → Distinct user_id users
    → Distinct user_id (update (Users.has_id id) (λ u. record u { bot_blocked = true }) users)
unfolding update
Distinct-blocked id [] h = tt
Distinct-blocked id (x ∷ users) h = elim (Bool-cases (Users.has_id id x)) [
  | inl e ↦ rw e (count-blocked id x.id users ∙ h.0, Distinct-blocked id users h.1)
  | inr e ↦ rw e (count-blocked id x.id users ∙ h.0, Distinct-blocked id users h.1)
]

-- A change of the users that keeps the recipients after a cursor.
abbrev pub IsKept : ℕ → Database → Database → Type 0
IsKept k db db' =
    ((l : ℕ)
      → k ≤ l
      → select (is_recipient_after l) db'.users ≡ select (is_recipient_after l) db.users)
    × Distinct user_id db'.users

module _ (telegram : Telegram) where
  advance-IsKept :
      (u : User) (status : CopyStatus) (p : Progress)
      → Distinct user_id p.db.users
      → IsKept u.id p.db (advance u status p).db
  unfolding Users.mark_bot_blocked Users.update_user
  advance-IsKept u sent p h = ((λ l le. refl), h)
  advance-IsKept u blocked p h =
      ((λ l le. select-blocked u.id l p.db.users le), Distinct-blocked u.id p.db.users h)
  advance-IsKept u error p h = ((λ l le. refl), h)

  pub pass-IsKept :
      (xs : List User) (c : ℕ) (p : Progress)
      → IsChain c xs
      → Distinct user_id p.db.users
      → IsKept (last_id c xs) p.db (pass telegram xs p).db
  pass-IsKept [] c p chain h = ((λ l le. refl), h)
  pass-IsKept (u ∷ xs) c p chain h =
      let p' = advance u (status_of (copy_broadcast_message telegram u)) p in
      let first = advance-IsKept u (status_of (copy_broadcast_message telegram u)) p h in
      let rest = pass-IsKept xs u.id p' chain.1 first.1 in
      let low = last_id_le u.id xs chain.1 in
      ((λ l le. rest.0 l le ∙ first.0 l (omega (arith, low, le))), rest.1)
