-- ===== src/Broadcasts/Between.antt =====
-- The recipients between two cursors, and the loop over the recipients that no exception leaves.

use testify.Common.{
  ℕ, zero, suc, Bool, true, false, some, none, List, [], ◌∷◌, ◌≡◌, ◌≤◌, ◌+◌, ◌==◌, ◌&&◌, leb,
  select, count, refl, arith, ap, ◌∙◌, sym, Option, take,
}
use testify.Models.{User}
use testify.Broadcasts.Repository.{is_recipient_after}
use testify.Broadcasts.Runner.{
  Telegram, Progress, CopyStatus, deliver, copy_broadcast_message, advance,
}
use testify.Broadcasts.Order.{IsChain, last_id, IsChain-lower}
use testify.Broadcasts.Pass.{pass, status_of}

-- The recipients after `c` with the id `k`, where it is at most `d`.
abbrev pub is_between : ℕ → ℕ → ℕ → User → Bool
is_between k c d u = (u.id == k) && is_recipient_after c u && leb u.id d

pub count-between_split :
    (k c l d : ℕ) (users : List User)
    → count (is_between k c d) users
      ≤ count (is_between k c l) users + count (is_between k l d) users
unfolding count
count-between_split k c l d [] = omega arith
count-between_split k c l d (u ∷ users) = ground (arith, count-between_split k c l d users)

-- What is counted among the recipients only.
pub count-between_select :
    (k c d : ℕ) (users : List User)
    → count (is_between k c d) users
      ≡ count (λ u. (u.id == k) && leb u.id d) (select (is_recipient_after c) users)
unfolding count select
count-between_select k c d [] = refl
count-between_select k c d (u ∷ users) = ground (arith, count-between_select k c d users)

count-chain_none :
    (k d : ℕ) (xs : List User) → IsChain d xs → count (λ u. (u.id == k) && leb u.id d) xs ≡ 0
unfolding count
count-chain_none k d [] h = refl
count-chain_none k d (x ∷ xs) h =
    let above = h.0 in
    let rest = count-chain_none k d xs (IsChain-lower d x.id xs (omega (arith, above)) h.1) in
    ground (arith, above, rest)

pub count-take_le :
    (k n c : ℕ) (xs : List User)
    → IsChain c xs
    → count (λ u. (u.id == k) && leb u.id (last_id c (take n xs))) xs
      ≤ count (λ u. u.id == k) (take n xs)
unfolding count
count-take_le k zero c xs h = let none_left = count-chain_none k c xs h in omega arith
count-take_le k (suc n) c [] h = omega arith
count-take_le k (suc n) c (x ∷ xs) h =
    let rest = count-take_le k n x.id xs h.1 in ground (arith, rest)

-- The loop after the copy to one student.
abbrev after_status : Telegram → User → List User → Progress → Option CopyStatus → Progress × Bool
after_status telegram u xs p none = (p, true)
after_status telegram u xs p (some status) = deliver telegram xs (advance u status p)

-- One student, whatever the status of the copy.
status-completes :
    (telegram : Telegram) (u : User) (xs : List User) (p : Progress)
    → ((q : Progress)
        → (deliver telegram xs q).1 ≡ false
        → deliver telegram xs q ≡ (pass telegram xs q, false))
    → (r : Option CopyStatus) → (after_status telegram u xs p r).1 ≡ false
    → after_status telegram u xs p r ≡ (pass telegram xs (advance u (status_of r) p), false)
status-completes telegram u xs p later none h = cc
status-completes telegram u xs p later (some status) h = later (advance u status p) h

deliver-status :
    (telegram : Telegram) (u : User) (xs : List User) (p : Progress)
    → deliver telegram (u ∷ xs) p ≡ after_status telegram u xs p (copy_broadcast_message telegram u)
unfolding deliver
deliver-status telegram u xs p = by_cases (copy_broadcast_message telegram u)
  where
    by_cases :
        (r : Option CopyStatus)
        → (elim r [ none ↦ (p, true) | some status ↦ deliver telegram xs (advance u status p) ])
          ≡ after_status telegram u xs p r
    by_cases none = refl
    by_cases (some status) = refl

pub deliver-completes :
    (telegram : Telegram) (xs : List User) (p : Progress)
    → (deliver telegram xs p).1 ≡ false
    → deliver telegram xs p ≡ (pass telegram xs p, false)
unfolding deliver
deliver-completes telegram [] p h = refl
deliver-completes telegram (u ∷ xs) p h =
    let copied = copy_broadcast_message telegram u in
    let shape = deliver-status telegram u xs p in
    shape
    ∙ status-completes telegram u xs p (deliver-completes telegram xs) copied
        (ap (λ r. r.1) (sym shape) ∙ h)
