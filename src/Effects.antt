-- ===== src/Effects.antt =====
-- A service call: a state, and the exceptions of app/exceptions.py. What was written before a raise
-- stays written; `in_transaction` is the session middleware, which rolls the database back.
use testify.Common.{ℕ, Bool, Option, none, some, if◌then◌else◌, ◌≡◌, ◌⊎◌, inl, inr, refl}

-- app/exceptions.py, and the exceptions of Python, SQLAlchemy and aiogram that the code meets
pub data Error : Type 0 where
  not_approved attempt_not_visible system_error : Error
  attempt_already_exists : Option ℕ → Error
  invalid_name : Error
  receipt_limit_exceeded receipt_already_pending receipt_already_processed : Error
  receipt_user_banned draft_required publish_conflict : Error
  reference_code_generation : Error
  value_error integrity_error assertion_error telegram_error : Error

pub data Result (A : Type 0) : Type 0 where
  ok : A → Result A
  err : Error → Result A

abbrev pub Action : Type 0 → Type 0 → Type 0
Action S A = S → Result A × S

module _ {S A : Type 0} where
  abbrev pub pure : A → Action S A
  pure a s = (ok a, s)

  abbrev pub raise : Error → Action S A
  raise e s = (err e, s)

  abbrev pub gets : (S → A) → Action S A
  gets f s = (ok (f s), s)

  -- `assert x is not None`
  abbrev pub assert_some : Option A → Action S A
  assert_some none s = (err assertion_error, s)
  assert_some (some a) s = (ok a, s)

  -- the state after a call, raised or not
  abbrev pub after : Action S A → S → S
  after m s = (m s).1

  abbrev pub outcome : Action S A → S → Result A
  outcome m s = (m s).0

  -- app/bot/middlewares/db_session.py: an exception rolls back, a return commits
  unfoldable pub in_transaction : Action S A → Action S A
  in_transaction m s = let (r, s') = m s in elim r [ ok a ↦ (ok a, s') | err e ↦ (err e, s) ]

infixl 5 ◌>>=◌ ◌>>◌
abbrev pub ◌>>=◌ : {S A B : Type 0} → Action S A → (A → Action S B) → Action S B
◌>>=◌ m f s = let (r, s') = m s in elim r [ ok a ↦ f a s' | err e ↦ (err e, s') ]

abbrev pub ◌>>◌ : {S A B : Type 0} → Action S A → Action S B → Action S B
m >> k = m >>= λ _. k

abbrev pub modify : {S : Type 0} → (S → S) → Action S Unit
modify f s = (ok tt, f s)

-- An update that returns its row count.
abbrev pub writing : {S A : Type 0} → (S → A × S) → Action S A
writing f s = let (n, s') = f s in (ok n, s')

abbrev pub raise_if : {S : Type 0} → Bool → Error → Action S Unit
raise_if c e s = (if c then err e else ok tt, s)

pub Result-cases :
    {A : Type 0} (r : Result A) → ((a : A) × (r ≡ ok a)) ⊎ ((e : Error) × (r ≡ err e))
Result-cases (ok a) = inl (a, refl)
Result-cases (err e) = inr (e, refl)
