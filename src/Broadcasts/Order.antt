-- ===== src/Broadcasts/Order.antt =====
-- The recipients in the order of their ids: what a cursor leaves of them.
use testify.Common.{
  ℕ, zero, suc, Bool, true, false, List, [], ◌∷◌, ◌≡◌, ◌<◌, ◌≤◌, ◌==◌, ltb, leb, select, count,
  Distinct, refl, arith, ap, ◌∙◌, sym, Bool-cases, inl, inr, leb→le, take,
}
use testify.Models.{User}
use testify.Broadcasts.Repository.{insert_by_id, order_by_id, is_recipient_after}

-- `xs[n:]`
abbrev pub drop : ℕ → List User → List User
drop zero xs = xs
drop (suc n) [] = []
drop (suc n) (x ∷ xs) = drop n xs

-- The id of the last of them, or `k` where there is none.
abbrev pub last_id : ℕ → List User → ℕ
last_id k [] = k
last_id k (x ∷ xs) = last_id x.id xs

-- Ascending ids above `k`.
abbrev pub IsChain : ℕ → List User → Type 0
IsChain k [] = Unit
IsChain k (x ∷ xs) = (k < x.id) × IsChain x.id xs

abbrev pub is_after : ℕ → User → Bool
is_after k x = ltb k x.id

pub IsChain-lower : (k l : ℕ) (xs : List User) → k ≤ l → IsChain l xs → IsChain k xs
IsChain-lower k l [] le h = tt
IsChain-lower k l (x ∷ xs) le h = let above = h.0 in (omega (arith, above), h.1)

IsChain-select : (q : User → Bool) (k : ℕ) (xs : List User) → IsChain k xs → IsChain k (select q xs)
unfolding select
IsChain-select q k [] h = tt
IsChain-select q k (x ∷ xs) h = elim (Bool-cases (q x)) [
  | inl e ↦ rw e (h.0, IsChain-select q x.id xs h.1)
  | inr e ↦
      let above = h.0 in
      rw e
        (IsChain-lower k x.id (select q xs) (omega (arith, above)) (IsChain-select q x.id xs h.1))
]

pub last_id_le : (k : ℕ) (xs : List User) → IsChain k xs → k ≤ last_id k xs
last_id_le k [] h = omega arith
last_id_le k (x ∷ xs) h = let above = h.0 in let rest = last_id_le x.id xs h.1 in omega arith

pub IsChain-take : (n k : ℕ) (xs : List User) → IsChain k xs → IsChain k (take n xs)
IsChain-take zero k xs h = tt
IsChain-take (suc n) k [] h = tt
IsChain-take (suc n) k (x ∷ xs) h = (h.0, IsChain-take n x.id xs h.1)

pub IsChain-drop :
    (n k : ℕ) (xs : List User) → IsChain k xs → IsChain (last_id k (take n xs)) (drop n xs)
IsChain-drop zero k xs h = h
IsChain-drop (suc n) k [] h = tt
IsChain-drop (suc n) k (x ∷ xs) h = IsChain-drop n x.id xs h.1

select-IsChain : (k : ℕ) (xs : List User) → IsChain k xs → select (is_after k) xs ≡ xs
unfolding select
select-IsChain k [] h = refl
select-IsChain k (x ∷ xs) h =
    let above = h.0 in
    let rest = select-IsChain k xs (IsChain-lower k x.id xs (omega (arith, above)) h.1) in
    ground (arith, above, rest)

-- The ids above the last of a batch are those of the rest.
pub select-last_id :
    (n k : ℕ) (xs : List User)
    → IsChain k xs
    → select (is_after (last_id k (take n xs))) xs ≡ drop n xs
unfolding select
select-last_id zero k xs h = select-IsChain k xs h
select-last_id (suc n) k [] h = refl
select-last_id (suc n) k (x ∷ xs) h =
    let low = last_id_le x.id (take n xs) (IsChain-take n x.id xs h.1) in
    let rest = select-last_id n x.id xs h.1 in ground (arith, low, rest)

-- ---------- sorting ----------

insert_front :
    (u : User) (k : ℕ) (xs : List User) → IsChain k xs → u.id ≤ k → insert_by_id u xs ≡ u ∷ xs
unfolding insert_by_id
insert_front u k [] h le = refl
insert_front u k (x ∷ xs) h le = let above = h.0 in ground (arith, above)

select-insert_in :
    (q : User → Bool) (u : User) (k : ℕ) (xs : List User)
    → IsChain k xs
    → q u ≡ true
    → select q (insert_by_id u xs) ≡ insert_by_id u (select q xs)
unfolding select insert_by_id
select-insert_in q u k [] h e = ground (arith, e)
select-insert_in q u k (x ∷ xs) h e = elim (Bool-cases (leb u.id x.id)) [
  | inl le ↦ elim (Bool-cases (q x)) [
    | inl e' ↦ ground (arith, le, e, e')
    | inr e' ↦
        let front =
          insert_front u x.id (select q xs) (IsChain-select q x.id xs h.1) (leb→le u.id x.id le) in
        ground (arith, le, e, e', front)
  ]
  | inr gt ↦ let rest = select-insert_in q u x.id xs h.1 e in ground (arith, gt, rest)
]

select-insert_out :
    (q : User → Bool) (u : User) (xs : List User)
    → q u ≡ false
    → select q (insert_by_id u xs) ≡ select q xs
unfolding select insert_by_id
select-insert_out q u [] e = ground (arith, e)
select-insert_out q u (x ∷ xs) e = ground (arith, e, select-insert_out q u xs e)

IsChain-insert :
    (u : User) (k : ℕ) (xs : List User)
    → k < u.id
    → count (λ x. x.id == u.id) xs ≡ 0
    → IsChain k xs
    → IsChain k (insert_by_id u xs)
unfolding insert_by_id count
IsChain-insert u k [] low fresh h = (low, tt)
IsChain-insert u k (x ∷ xs) low fresh h = elim (Bool-cases (leb u.id x.id)) [
  | inl le ↦ let apart : u.id < x.id = ground (arith, le, fresh) in rw le (low, (apart, h.1))
  | inr gt ↦
      let apart : x.id < u.id = ground (arith, gt) in
      rw gt (h.0, IsChain-insert u x.id xs apart (ground (arith, fresh)) h.1)
]

count-insert_by_id :
    (q : User → Bool) (u : User) (xs : List User) → count q (insert_by_id u xs) ≡ count q (u ∷ xs)
unfolding count insert_by_id
count-insert_by_id q u [] = refl
count-insert_by_id q u (x ∷ xs) = ground (arith, count-insert_by_id q u xs)

pub count-order_by_id : (q : User → Bool) (xs : List User) → count q (order_by_id xs) ≡ count q xs
unfolding count order_by_id
count-order_by_id q [] = refl
count-order_by_id q (x ∷ xs) =
    let rest = count-order_by_id q xs in
    let inserted = count-insert_by_id q x (order_by_id xs) in ground (arith, rest, inserted)

count-select_le : (q p : User → Bool) (xs : List User) → count q (select p xs) ≤ count q xs
unfolding count select
count-select_le q p [] = omega arith
count-select_le q p (x ∷ xs) = ground (arith, count-select_le q p xs)

abbrev pub user_id : User → ℕ
user_id u = u.id

fresh-select :
    (p : User → Bool) (x : User) (xs : List User)
    → count (λ y. y.id == x.id) xs ≡ 0
    → count (λ y. y.id == x.id) (order_by_id (select p xs)) ≡ 0
fresh-select p x xs h =
    let ordered = count-order_by_id (λ y. y.id == x.id) (select p xs) in
    let le = count-select_le (λ y. y.id == x.id) p xs in omega arith

-- The recipients after a cursor are in ascending order above it.
pub IsChain-recipients :
    (k : ℕ) (xs : List User)
    → Distinct user_id xs
    → IsChain k (order_by_id (select (is_recipient_after k) xs))
unfolding select order_by_id
IsChain-recipients k [] h = tt
IsChain-recipients k (x ∷ xs) h = elim (Bool-cases (is_recipient_after k x)) [
  | inr e ↦ rw e (IsChain-recipients k xs h.1)
  | inl e ↦ rw e (
      IsChain-insert x k (order_by_id (select (is_recipient_after k) xs)) (ground (arith, e))
        (fresh-select (is_recipient_after k) x xs h.0) (IsChain-recipients k xs h.1))
]

select-after :
    (c k : ℕ) (xs : List User)
    → c ≤ k
    → select (is_after k) (select (is_recipient_after c) xs) ≡ select (is_recipient_after k) xs
unfolding select
select-after c k [] le = refl
select-after c k (x ∷ xs) le = ground (arith, select-after c k xs le)

select-order :
    (c : ℕ) (q : User → Bool) (xs : List User)
    → Distinct user_id xs
    → select q (order_by_id (select (is_recipient_after c) xs))
      ≡ order_by_id (select q (select (is_recipient_after c) xs))
unfolding select order_by_id
select-order c q [] h = refl
select-order c q (x ∷ xs) h = elim (Bool-cases (is_recipient_after c x)) [
  | inr e ↦ rw e (select-order c q xs h.1)
  | inl e ↦ elim (Bool-cases (q x)) [
    | inl e' ↦
        rw (e, e')
          (select-insert_in q x c (order_by_id (select (is_recipient_after c) xs))
              (IsChain-recipients c xs h.1) e'
            ∙ ap (insert_by_id x) (select-order c q xs h.1))
    | inr e' ↦
        rw (e, e')
          (select-insert_out q x (order_by_id (select (is_recipient_after c) xs)) e'
            ∙ select-order c q xs h.1)
  ]
]

-- After a batch of `n`, the recipients after its last one are the rest.
pub recipients-rest :
    (n c : ℕ) (xs : List User)
    → Distinct user_id xs
    → let recipients = order_by_id (select (is_recipient_after c) xs) in
      order_by_id (select (is_recipient_after (last_id c (take n recipients))) xs)
      ≡ drop n recipients
recipients-rest n c xs h =
    let recipients = order_by_id (select (is_recipient_after c) xs) in
    let k = last_id c (take n recipients) in
    let chain = IsChain-recipients c xs h in
    let low = last_id_le c (take n recipients) (IsChain-take n c recipients chain) in
    ap order_by_id (sym (select-after c k xs low))
    ∙ (sym (select-order c (is_after k) xs h) ∙ select-last_id n c recipients chain)
