-- ===== src/Users/Service/Funnel/Edges.antt =====
-- The edges of the funnel: what one request of app/services/user_service.py may do to a user row.
use testify.Common.{
  ℕ, Bool, ◌≡◌, Option, arith, some, true, ◌≤◌, List, none, false, find, is_some, update,
  if◌then◌else◌, ==_iff, Bool-cases, inl, find-some, inr, subst, refl, find-update, sym, ◌∙◌,
  update-update,
}
use mathlib.Core.Option
use testify.Models.{
  User, Database, UserStatus, new, onboarding_phone, onboarding_name, is_banned, is_approved,
}
use testify.Users.Repository.{has_id, get_by_id, update_user}
use testify.Users.Service.{where_status}

-- The onboarding states, in which phone, name and code may still be written.
abbrev pub is_onboarding : UserStatus → Bool
is_onboarding new = true
is_onboarding onboarding_phone = true
is_onboarding onboarding_name = true
is_onboarding _ = false

-- How far a user has come.
abbrev pub stage : UserStatus → ℕ
stage new = 0
stage onboarding_phone = 1
stage onboarding_name = 2
stage _ = 3

-- What one request may do to a row.
pub record Evolves (a b : User) : Type 0 where
  pub same_id : (b.id ≡ a.id) × (b.telegram_id ≡ a.telegram_id)
  -- onboarding only goes forward
  pub forward : stage a.status ≤ stage b.status
  -- a ban is lifted only to `approved`, and only for a user who had been approved
  pub ban_lifted :
      is_banned a.status ≡ true
      → is_banned b.status ≡ false
      → (is_approved b.status ≡ true) × (is_some a.approved_at ≡ true)
  -- the time of the approval is written once
  pub approved_once : is_some a.approved_at ≡ true → b.approved_at ≡ a.approved_at
  -- after onboarding the phone, the name and the reference code stay
  pub settled :
      is_onboarding a.status ≡ false
      → (b.phone ≡ a.phone) × (b.full_name ≡ a.full_name) × (b.reference_code ≡ a.reference_code)
  -- who is approved has the time of the approval
  pub stamped :
      (is_approved a.status ≡ true → is_some a.approved_at ≡ true)
      → is_approved b.status ≡ true
      → is_some b.approved_at ≡ true

-- The row of `u` after a request, where it had one.
abbrev pub EvolvesTo : Option User → Option User → Type 0
EvolvesTo none o = Unit
EvolvesTo (some a) none = ⊥
EvolvesTo (some a) (some b) = Evolves a b

Evolves-refl : (a : User) → Evolves a a
Evolves-refl a = ground arith

pub EvolvesTo-refl : (o : Option User) → EvolvesTo o o
EvolvesTo-refl none = tt
EvolvesTo-refl (some a) = Evolves-refl a

-- An update of the rows that `p` matches.
pub EvolvesTo-update :
    (p : User → Bool) (f : User → User) (u : ℕ) (users : List User)
    → ((a : User) → (f a).id ≡ a.id)
    → ((a : User) → find (has_id u) users ≡ some a → p a ≡ true → Evolves a (f a))
    → EvolvesTo (find (has_id u) users) (find (has_id u) (update p f users))
EvolvesTo-update p f u users same step =
    rw (find-update p (has_id u) f users (λ x. ground (arith, same x)))
      (go (find (has_id u) users) refl)
  where
    go :
        (o : Option User)
        → find (has_id u) users ≡ o
        → EvolvesTo o (Option.map (λ x. if p x then f x else x) o)
    go none e = tt
    go (some a) e = elim (Bool-cases (p a)) [
      | inl t ↦ rw t (step a e t)
      | inr t ↦ rw t (Evolves-refl a)
    ]

pub update_user-Evolves :
    (f : User → User) (id u : ℕ) (db : Database)
    → ((a : User) → (f a).id ≡ a.id)
    → ((a : User) → get_by_id id db ≡ some a → Evolves a (f a))
    → EvolvesTo (get_by_id u db) (get_by_id u (update_user id f db))
unfolding get_by_id update_user
update_user-Evolves f id u db same step =
    EvolvesTo-update (has_id id) f u db.users same λ a found hit.
      let ea : a.id ≡ u = (==_iff a.id u).0 (find-some (has_id u) db.users a found) in
      let ei : a.id ≡ id = (==_iff a.id id).0 hit in
      step a (subst (λ k. find (has_id k) db.users ≡ some a) (sym ea ∙ ei) found)

pub where_status-Evolves :
    (test : UserStatus → Bool) (write : Database → Database) (f : User → User) (id u : ℕ)
    (db : Database)
    → write db ≡ update_user id f db
    → ((a : User) → (f a).id ≡ a.id)
    → ((a : User) → test a.status ≡ true → Evolves a (f a))
    → EvolvesTo (get_by_id u db) (get_by_id u (where_status test write (get_by_id id db) db))
where_status-Evolves test write f id u db writes same step = go (get_by_id id db) refl
  where
    go :
        (o : Option User)
        → get_by_id id db ≡ o
        → EvolvesTo (get_by_id u db) (get_by_id u (where_status test write o db))
    go none e = EvolvesTo-refl (get_by_id u db)
    go (some b) e = elim (Bool-cases (test b.status)) [
      | inl t ↦
          rw (t, writes)
            (update_user-Evolves f id u db same λ a found. step a (ground (arith, t, found, e)))
      | inr t ↦ rw t (EvolvesTo-refl (get_by_id u db))
    ]

-- Two writes to one user are one update.
pub update_user_twice :
    (f g : User → User) (id : ℕ) (db : Database)
    → ((a : User) → (f a).id ≡ a.id)
    → update_user id g (update_user id f db) ≡ update_user id (λ a. g (f a)) db
unfolding update_user
update_user_twice f g id db same =
    rw (update-update (has_id id) f g db.users (λ x. ground (arith, same x)))

pub where_status_id :
    (test : UserStatus → Bool) (o : Option User) (db : Database)
    → where_status test (λ d. d) o db ≡ db
where_status_id test o db = ground arith
