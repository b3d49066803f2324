-- ===== src/Examples/Cache.antt =====
-- The settings behind a small cache.
use testify.Common.{
  Option, none, some, [], ◌∷◌, ◌≡◌, refl, inl, Text, text_eq, if◌then◌else◌, find, update,
}
use testify.Settings.{Redis, Store, Setting, get_row, set_row}
use testify.Settings
use testify.Settings.Coherence.{get_call, set_call, run, plain_run, run-plain, value, nothing}
use testify.Examples.Data.{letter_a, letter_b}

-- Redis as a function, in which every pause outlives the entries.
abbrev pub redis : Redis
redis = record {
  State = Text → Option Text;
  get = λ key s. s key;
  set = λ key text ttl s other. if text_eq key other then some text else s other;
  delete = λ key s other. if text_eq key other then none else s other;
  pass_time = λ seconds s key. none;
  get-set = λ key other text ttl s. refl;
  get-delete = λ key other s. refl;
  get-pass_time = λ seconds key s. inl refl;
}

abbrev row_of : Text → Text → Setting
row_of key text = record { key = key; value = text; updated_by_admin_id = none }

abbrev pub settings : Store redis.State
settings = record { table = row_of letter_a letter_a ∷ []; cache = λ key. none }

run-plain_example :
    run redis
      (get_call letter_a ∷ set_call letter_a letter_b none ∷ get_call letter_a ∷ [])
      settings
    ≡ value (some letter_a) ∷ nothing ∷ value (some letter_b) ∷ []
unfolding plain_run get_row set_row find text_eq update
run-plain_example =
    run-plain redis (get_call letter_a ∷ set_call letter_a letter_b none ∷ get_call letter_a ∷ [])
      settings (λ key v hit. cc)

-- A read between the deletion of the entry and the commit puts the old value back into the cache.
abbrev read_before_commit : Store redis.State
read_before_commit =
    (Settings.get redis letter_a
      (record settings { cache = (Settings.set redis letter_a letter_b none settings).cache })).1

stale_read :
    (Settings.get redis letter_a (record read_before_commit {
      table = (Settings.set redis letter_a letter_b none settings).table;
    })).0
    ≡ some letter_a
unfolding Settings.get Settings.set get_row set_row find text_eq update
stale_read = refl
