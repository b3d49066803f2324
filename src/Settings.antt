-- ===== src/Settings.antt =====
-- app/repositories/settings_repository.py and app/services/settings_service.py: the settings table
-- behind its cache in Redis, on the values as texts (`encode` and `decode` are inverse).
pub mod Coherence
use testify.Common.{
  ℕ, Bool, Option, none, some, Text, text_eq, List, [], ◌∷◌, ◌++◌, ◌≡◌, ◌⊎◌, find, update, insert,
  is_some, map, if◌then◌else◌,
}
use testify.Utils.Strip.{strip}
use mathlib.Core.Option

-- app/models/setting.py; `description` and `updated_at` are not read.
pub record Setting : Type 0 where
  pub key : Text
  pub value : Text
  pub updated_by_admin_id : Option ℕ

-- Keys are compared exactly. The column has a collation that ignores case, which the keys of the
-- handlers, all of one list, do not meet.
abbrev pub has_key : Text → Setting → Bool
has_key key s = text_eq s.key key

-- ---------- the repository ----------

unfoldable pub get_row : Text → List Setting → Option Text
get_row key table = Option.map (λ (s : Setting). s.value) (find (has_key key) table)

-- The upsert on the primary key.
unfoldable pub set_row : Text → Text → Option ℕ → List Setting → List Setting
set_row key value admin_id table =
    if is_some (find (has_key key) table)
    then update (has_key key) (λ s. record s { value = value; updated_by_admin_id = admin_id })
        table
    else insert (record { key = key; value = value; updated_by_admin_id = admin_id }) table

unfoldable pub all_rows : List Setting → List (Text × Text)
all_rows table = map (λ (s : Setting). (s.key, s.value)) table

-- ---------- the service ----------

-- `CACHE_TTL_SECONDS`
abbrev pub cache_ttl_seconds : ℕ
cache_ttl_seconds = 60

-- `_CACHE_PREFIX + key`
abbrev pub cache_key : Text → Text
cache_key key = (b's' ∷ b'e' ∷ b't' ∷ b't' ∷ b'i' ∷ b'n' ∷ b'g' ∷ b's' ∷ b':' ∷ []) ++ key

-- redis.asyncio on text keys: `set(…, ex=…)`, `get`, `delete`, and time passing, which may drop any
-- entry that has a time to live.
pub record Redis : Type 1 where
  pub State : Type 0
  pub get : Text → State → Option Text
  pub set : Text → Text → ℕ → State → State
  pub delete : Text → State → State
  pub pass_time : ℕ → State → State
  pub get-set :
      (key other value : Text) (ttl : ℕ) (s : State)
      → get other (set key value ttl s) ≡ (if text_eq key other then some value else get other s)
  pub get-delete :
      (key other : Text) (s : State)
      → get other (delete key s) ≡ (if text_eq key other then none else get other s)
  pub get-pass_time :
      (seconds : ℕ) (key : Text) (s : State)
      → (get key (pass_time seconds s) ≡ none) ⊎ (get key (pass_time seconds s) ≡ get key s)

-- What the service works on: the committed table, and Redis.
pub record Store (Cache : Type 0) : Type 0 where
  pub table : List Setting
  pub cache : Cache

module _ (redis : Redis) where
  open redis use {State}

  -- `get` after a miss, on what the table held.
  abbrev pub fill : Text → Option Text → Store State → Option Text × Store State
  fill key none s = (none, s)
  fill key (some value) s =
      (some value, record s { cache = redis.set (cache_key key) value cache_ttl_seconds s.cache })

  unfoldable pub get : Text → Store State → Option Text × Store State
  get key s = elim (redis.get (cache_key key) s.cache) [
    | some cached ↦ (some cached, s)
    | none ↦ fill key (get_row key s.table) s
  ]

  unfoldable pub set : Text → Text → Option ℕ → Store State → Store State
  set key value admin_id s = record {
    table = set_row key value admin_id s.table;
    cache = redis.delete (cache_key key) s.cache;
  }

  unfoldable pub get_all : Store State → List (Text × Text)
  get_all s = all_rows s.table

-- `int(raw.strip())`, or the default; `int_of` is Python's `int`, with `none` for a `ValueError`.
abbrev pub int_or : {A : Type 0} → (ℕ → Bool) → (Text → Option A) → A → Option Text → A
int_or is_space int_of default none = default
int_or is_space int_of default (some raw) = Option.get_or (int_of (strip is_space raw)) default

unfoldable pub get_int :
    {A : Type 0} (redis : Redis)
    → (ℕ → Bool)
    → (Text → Option A)
    → Text
    → A
    → Store redis.State
    → A × Store redis.State
unfolding get
get_int redis is_space int_of key default s =
    let (raw, s') = get redis key s in (int_or is_space int_of default raw, s')
