-- ===== src/Common/Table.antt =====
-- A database table as the list of its rows, and the statements of the repositories over it:
-- `select … where`, `… limit 1`, `count(*)`, `update … where … values`, `delete … where`.
use Prim.Native.Nat.{ℕ, zero, suc, ◌+◌, ◌≤◌}
use mathlib.Core.Path.{◌≡◌, refl, subst}
use mathlib.Core.Logic.{inl, inr}
use mathlib.Core.Bool.{Bool, true, false, ◌&&◌, ◌||◌}
use mathlib.Core.Option.{Option, none, some}
use mathlib.Core.List.{map, List, [], ◌∷◌}
use mathlib.Core.Option
use native.Mathlib.Omega.{arith}
use testify.Common.Tests.{◌==◌, if◌then◌else◌, Bool-cases}

-- A predicate of every row.
abbrev pub All {ℓ κ} : {A : Type ℓ} → (A → Type κ) → List A → Type κ
All P [] = Unit
All P (x ∷ xs) = P x × All P xs

module _ {ℓ} {A : Type ℓ} where
  abbrev pub length : List A → ℕ
  length [] = 0
  length (x ∷ xs) = suc (length xs)

  -- `s[:n]`, and `limit(n)`
  abbrev pub take : ℕ → List A → List A
  take zero xs = []
  take (suc n) [] = []
  take (suc n) (x ∷ xs) = x ∷ take n xs

  -- `select(…).where(p)`, in the order of the table.
  unfoldable pub select : (A → Bool) → List A → List A
  select p [] = []
  select p (x ∷ xs) = let rest = select p xs in if p x then x ∷ rest else rest

  -- `select(…).where(p).limit(1)`, or a lookup by primary key.
  unfoldable pub find : (A → Bool) → List A → Option A
  find p [] = none
  find p (x ∷ xs) = if p x then some x else find p xs

  -- `select(func.count()).where(p)`, and the rows that an `update` or a `delete` matches.
  unfoldable pub count : (A → Bool) → List A → ℕ
  count p [] = 0
  count p (x ∷ xs) = (if p x then 1 else 0) + count p xs

  -- `update(…).where(p).values(f)`.
  unfoldable pub update : (A → Bool) → (A → A) → List A → List A
  update p f [] = []
  update p f (x ∷ xs) = (if p x then f x else x) ∷ update p f xs

  -- `delete(…).where(p)`.
  unfoldable pub delete : (A → Bool) → List A → List A
  delete p [] = []
  delete p (x ∷ xs) = let rest = delete p xs in if p x then rest else x ∷ rest

  -- `session.add(row)` and the flush.
  unfoldable pub insert : A → List A → List A
  insert a [] = a ∷ []
  insert a (x ∷ xs) = x ∷ insert a xs

pub none_ne_some {ℓ} : {A : Type ℓ} {x : A} → none ≡ some x → ⊥
none_ne_some h = cc

module _ {ℓ} {A : Type ℓ} (p : A → Bool) where
  pub count_le_length : (xs : List A) → count p xs ≤ length xs
  unfolding count
  count_le_length [] = omega arith
  count_le_length (x ∷ xs) = ground (arith, count_le_length xs)

  pub length-select : (xs : List A) → length (select p xs) ≡ count p xs
  unfolding count select
  length-select [] = refl
  length-select (x ∷ xs) = ground (arith, length-select xs)

  pub find-some : (xs : List A) (x : A) → find p xs ≡ some x → p x ≡ true
  unfolding find
  find-some [] x h = cc
  find-some (y ∷ xs) x h = ground (arith, find-some xs x)

  -- An update that keeps the test updates the rows that were selected.
  pub select-update :
      (q : A → Bool) (f : A → A) (xs : List A)
      → ((x : A) → p (f x) ≡ p x)
      → select p (update q f xs) ≡ map (λ x. if q x then f x else x) (select p xs)
  unfolding select update
  select-update q f [] keep = refl
  select-update q f (x ∷ xs) keep = ground (arith, keep x, select-update q f xs keep)

  -- Where no row matches, an update writes nothing.
  pub update_unmatched : (f : A → A) (xs : List A) → count p xs ≡ 0 → update p f xs ≡ xs
  unfolding count update
  update_unmatched f [] h = refl
  update_unmatched f (x ∷ xs) h = ground (arith, update_unmatched f xs)

  pub count-insert : (a : A) (xs : List A) → count p (insert a xs) ≡ count p xs + count p (a ∷ [])
  unfolding count insert
  count-insert a [] = omega arith
  count-insert a (x ∷ xs) = ground (arith, count-insert a xs)

  pub find-some-count_and :
      (q : A → Bool) (xs : List A) (x : A)
      → find p xs ≡ some x
      → q x ≡ true
      → 1 ≤ count (λ y. p y && q y) xs
  unfolding find count
  find-some-count_and q [] x h e = absurd (none_ne_some h)
  find-some-count_and q (y ∷ xs) x h e = ground (arith, find-some-count_and q xs x)

  -- A row keeps being found under an update that keeps the test `q`.
  pub find-update :
      (q : A → Bool) (f : A → A) (xs : List A)
      → ((x : A) → q (f x) ≡ q x)
      → find q (update p f xs) ≡ Option.map (λ x. if p x then f x else x) (find q xs)
  unfolding find update
  find-update q f [] keep = refl
  find-update q f (x ∷ xs) keep = ground (arith, keep x, find-update q f xs keep)

  -- Two updates of the same rows are one.
  pub update-update :
      (f g : A → A) (xs : List A)
      → ((x : A) → p (f x) ≡ p x)
      → update p g (update p f xs) ≡ update p (λ x. g (f x)) xs
  unfolding update
  update-update f g [] keep = refl
  update-update f g (x ∷ xs) keep = ground (arith, keep x, update-update f g xs keep)

  -- Where the update sets the test on no row, no more rows pass it afterwards.
  pub count-update_le :
      (q : A → Bool) (f : A → A) (xs : List A)
      → ((x : A) → p x ≡ true → q x ≡ false → q (f x) ≡ false)
      → count q (update p f xs) ≤ count q xs
  unfolding count update
  count-update_le q f [] keep = omega arith
  count-update_le q f (x ∷ xs) keep = elim (Bool-cases (p x)) [
    | inl e ↦ rw e (ground (arith, keep x e, count-update_le q f xs keep))
    | inr e ↦ rw e (ground (arith, count-update_le q f xs keep))
  ]

  pub count-update :
      (q : A → Bool) (f : A → A) (xs : List A)
      → ((x : A) → p x ≡ true → q (f x) ≡ q x)
      → count q (update p f xs) ≡ count q xs
  unfolding count update
  count-update q f [] keep = refl
  count-update q f (x ∷ xs) keep = elim (Bool-cases (p x)) [
    | inl e ↦ rw e (ground (arith, keep x e, count-update q f xs keep))
    | inr e ↦ rw e (ground (arith, count-update q f xs keep))
  ]

  -- Where the update clears the test, no row passes it afterwards.
  pub count-update_cleared :
      (q : A → Bool) (f : A → A) (xs : List A)
      → ((x : A) → p x ≡ true → q (f x) ≡ false)
      → ((x : A) → p x ≡ false → q x ≡ false)
      → count q (update p f xs) ≡ 0
  unfolding count update
  count-update_cleared q f [] hit miss = refl
  count-update_cleared q f (x ∷ xs) hit miss = elim (Bool-cases (p x)) [
    | inl e ↦ rw e (ground (arith, hit x e, count-update_cleared q f xs hit miss))
    | inr e ↦ rw e (ground (arith, miss x e, count-update_cleared q f xs hit miss))
  ]

  pub find-none-count : (xs : List A) → find p xs ≡ none → count p xs ≡ 0
  unfolding find count
  find-none-count [] h = refl
  find-none-count (x ∷ xs) h = ground (arith, find-none-count xs)

  pub find_of_count_zero : (xs : List A) → count p xs ≡ 0 → find p xs ≡ none
  unfolding find count
  find_of_count_zero [] h = refl
  find_of_count_zero (x ∷ xs) h = ground (arith, find_of_count_zero xs)

  -- A new row is found where no row was.
  pub find-insert :
      (a : A) (xs : List A)
      → find p xs ≡ none
      → find p (insert a xs) ≡ (if p a then some a else none)
  unfolding find insert
  find-insert a [] h = refl
  find-insert a (x ∷ xs) h = ground (arith, find-insert a xs)

  pub find-insert_other : (a : A) (xs : List A) → p a ≡ false → find p (insert a xs) ≡ find p xs
  unfolding find insert
  find-insert_other a [] h = ground arith
  find-insert_other a (x ∷ xs) h = ground (arith, find-insert_other a xs h)

  pub find-some-count : (xs : List A) (x : A) → find p xs ≡ some x → 1 ≤ count p xs
  unfolding find count
  find-some-count [] x h = cc
  find-some-count (y ∷ xs) x h = ground (arith, find-some-count xs x)

-- A unique index on `key`: no two rows have the same value.
abbrev pub Distinct {ℓ} : {A : Type ℓ} → (A → ℕ) → List A → Type 0
Distinct key [] = Unit
Distinct key (x ∷ xs) = (count (λ y. key y == key x) xs ≡ 0) × Distinct key xs

module _ {ℓ} {A : Type ℓ} where
  pub count-same : (p q : A → Bool) (xs : List A) → ((x : A) → p x ≡ q x) → count p xs ≡ count q xs
  unfolding count
  count-same p q [] same = refl
  count-same p q (x ∷ xs) same = ground (arith, same x, count-same p q xs same)

  pub count-false : (p : A → Bool) (xs : List A) → ((x : A) → p x ≡ false) → count p xs ≡ 0
  unfolding count
  count-false p [] never = refl
  count-false p (x ∷ xs) never = ground (arith, never x, count-false p xs never)

  -- Two tests that no row of the table passes together.
  pub count-or :
      (p q : A → Bool) (xs : List A)
      → All (λ x. (p x && q x) ≡ false) xs
      → count (λ x. p x || q x) xs ≡ count p xs + count q xs
  unfolding count
  count-or p q [] h = refl
  count-or p q (x ∷ xs) h = ground (arith, h.0, count-or p q xs h.1)

  pub count-and_le : (p q : A → Bool) (xs : List A) → count (λ x. p x && q x) xs ≤ count p xs
  unfolding count
  count-and_le p q [] = omega arith
  count-and_le p q (x ∷ xs) = ground (arith, count-and_le p q xs)

  pub All-of : (P : A → Type 0) (xs : List A) → ((x : A) → P x) → All P xs
  All-of P [] h = tt
  All-of P (x ∷ xs) h = (h x, All-of P xs h)

module _ {ℓ κ} {A : Type ℓ} (P : A → Type κ) where
  pub All-insert : (a : A) (xs : List A) → P a → All P xs → All P (insert a xs)
  unfolding insert
  All-insert a [] pa h = (pa, tt)
  All-insert a (x ∷ xs) pa h = (h.0, All-insert a xs pa h.1)

  pub All-update :
      (p : A → Bool) (f : A → A) (xs : List A)
      → ((x : A) → p x ≡ true → P x → P (f x))
      → All P xs
      → All P (update p f xs)
  unfolding update
  All-update p f [] keep h = tt
  All-update p f (x ∷ xs) keep h = elim (Bool-cases (p x)) [
    | inl e ↦ rw e (keep x e h.0, All-update p f xs keep h.1)
    | inr e ↦ rw e (h.0, All-update p f xs keep h.1)
  ]

  pub All-delete : (p : A → Bool) (xs : List A) → All P xs → All P (delete p xs)
  unfolding delete
  All-delete p [] h = tt
  All-delete p (x ∷ xs) h = elim (Bool-cases (p x)) [
    | inl e ↦ rw e (All-delete p xs h.1)
    | inr e ↦ rw e (h.0, All-delete p xs h.1)
  ]

  pub find-All : (p : A → Bool) (xs : List A) (x : A) → All P xs → find p xs ≡ some x → P x
  unfolding find
  find-All p [] x h e = cc
  find-All p (y ∷ xs) x h e = elim (Bool-cases (p y)) [
    | inl t ↦ subst P (let same : y ≡ x = ground arith in same) h.0
    | inr t ↦ find-All p xs x h.1 (ground arith)
  ]
