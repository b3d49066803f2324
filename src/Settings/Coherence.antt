-- ===== src/Settings/Coherence.antt =====
-- The cached service against the table alone.
use testify.Common.{
  ℕ, true, false, Option, none, some, Text, text_eq, List, [], ◌∷◌, ◌≡◌, refl, sym, ◌∙◌, ap, inl,
  inr, find, if◌then◌else◌, Bool-cases, Option-cases, subst, ==_iff, find-update, find-some, arith,
  ◌==◌, find-insert, find-insert_other,
}
use testify.Settings.{
  Setting, has_key, get_row, set_row, all_rows, Redis, Store, cache_key, cache_ttl_seconds, get,
  set, get_all,
}

-- ---------- texts ----------

pub text_eq_refl : (s : Text) → text_eq s s ≡ true
unfolding text_eq
text_eq_refl [] = refl
text_eq_refl (a ∷ s) = ground (arith, text_eq_refl s)

text_eq-eq : (s t : Text) → text_eq s t ≡ true → s ≡ t
unfolding text_eq
text_eq-eq [] [] h = refl
text_eq-eq [] (b ∷ t) h = cc
text_eq-eq (a ∷ s) [] h = cc
text_eq-eq (a ∷ s) (b ∷ t) h = elim (Bool-cases (a == b)) [
  | inl e ↦ cc ((==_iff a b).0 e, text_eq-eq s t (ground arith))
  | inr e ↦ ground arith
]

-- Two keys are cached under the same key only where they are the same.
text_eq-cache_key : (s t : Text) → text_eq (cache_key s) (cache_key t) ≡ text_eq s t
unfolding text_eq
text_eq-cache_key s t = refl

-- ---------- the table ----------

get_row-set_row_same :
    (key value : Text) (admin_id : Option ℕ) (table : List Setting)
    → get_row key (set_row key value admin_id table) ≡ some value
unfolding get_row set_row
get_row-set_row_same key value admin_id table = elim (Option-cases (find (has_key key) table)) [
  | inl missing ↦
      rw
        (
          missing,
          find-insert (has_key key)
              (record { key = key; value = value; updated_by_admin_id = admin_id }) table missing,
          text_eq_refl key,
        )
        refl
  | inr (s, found) ↦
      rw
        (
          found,
          find-update (has_key key) (has_key key)
              (λ r. record r { value = value; updated_by_admin_id = admin_id }) table (λ r. refl),
          found,
          find-some (has_key key) table s found,
        )
        refl
]

-- A row of another key is not of this one.
other_key :
    (k key other : Text)
    → text_eq k other ≡ true
    → text_eq key other ≡ false
    → text_eq k key ≡ false
other_key k key other same differs = elim (Bool-cases (text_eq k key)) [
  | inl e ↦ cc (same, differs, text_eq-eq k key e)
  | inr e ↦ e
]

get_row-set_row_other :
    (key other value : Text) (admin_id : Option ℕ) (table : List Setting)
    → text_eq key other ≡ false
    → get_row other (set_row key value admin_id table) ≡ get_row other table
unfolding get_row set_row
get_row-set_row_other key other value admin_id table differs =
    elim (Option-cases (find (has_key key) table)) [
      | inl missing ↦
          rw
            (
              missing,
              find-insert_other (has_key other)
                  (record { key = key; value = value; updated_by_admin_id = admin_id }) table
                  differs,
            )
            refl
      | inr (s, found) ↦
          rw
            (
              found,
              find-update (has_key key) (has_key other)
                  (λ r. record r { value = value; updated_by_admin_id = admin_id }) table
                  (λ r. refl),
            )
            (elim (Option-cases (find (has_key other) table)) [
              | inl none_found ↦ rw none_found refl
              | inr (x, hit) ↦
                  rw
                    (hit, other_key x.key key other (find-some (has_key other) table x hit) differs)
                    refl
            ])
    ]

get_row-set_row :
    (key other value : Text) (admin_id : Option ℕ) (table : List Setting)
    → get_row other (set_row key value admin_id table)
      ≡ (if text_eq key other then some value else get_row other table)
get_row-set_row key other value admin_id table = elim (Bool-cases (text_eq key other)) [
  | inl same ↦
      rw (sym (text_eq-eq key other same), text_eq_refl key)
        (get_row-set_row_same key value admin_id table)
  | inr differs ↦ rw differs (get_row-set_row_other key other value admin_id table differs)
]

-- ---------- the calls ----------

-- A call of the service, or time passing between two of them.
pub data Call : Type 0 where
  get_call : Text → Call
  set_call : Text → Text → Option ℕ → Call
  get_all_call : Call
  wait : ℕ → Call

pub data Answer : Type 0 where
  value : Option Text → Answer
  pairs : List (Text × Text) → Answer
  nothing : Answer

-- The table alone: every read goes to it.
unfoldable pub plain : Call → List Setting → Answer × List Setting
plain (get_call key) table = (value (get_row key table), table)
plain (set_call key text admin_id) table = (nothing, set_row key text admin_id table)
plain get_all_call table = (pairs (all_rows table), table)
plain (wait seconds) table = (nothing, table)

unfoldable pub plain_run : List Call → List Setting → List Answer
unfolding plain
plain_run [] table = []
plain_run (c ∷ calls) table = let (a, table') = plain c table in a ∷ plain_run calls table'

module _ (redis : Redis) where
  open redis use {State}

  unfoldable pub call : Call → Store State → Answer × Store State
  call (get_call key) s = let (v, s') = get redis key s in (value v, s')
  call (set_call key text admin_id) s = (nothing, set redis key text admin_id s)
  call get_all_call s = (pairs (get_all redis s), s)
  call (wait seconds) s = (nothing, record s { cache = redis.pass_time seconds s.cache })

  unfoldable pub run : List Call → Store State → List Answer
  unfolding call
  run [] s = []
  run (c ∷ calls) s = let (a, s') = call c s in a ∷ run calls s'

  -- What the cache holds is what the table holds.
  abbrev pub IsCoherent : Store State → Type 0
  IsCoherent s =
      (key v : Text) → redis.get (cache_key key) s.cache ≡ some v → get_row key s.table ≡ some v

  cached-set :
      (key other v : Text) (c : State)
      → redis.get (cache_key other) (redis.set (cache_key key) v cache_ttl_seconds c)
        ≡ (if text_eq key other then some v else redis.get (cache_key other) c)
  cached-set key other v c =
      subst
        (λ b.
          redis.get (cache_key other) (redis.set (cache_key key) v cache_ttl_seconds c)
          ≡ (if b then some v else redis.get (cache_key other) c))
        (text_eq-cache_key key other)
        (redis.get-set (cache_key key) (cache_key other) v cache_ttl_seconds c)

  cached-delete :
      (key other : Text) (c : State)
      → redis.get (cache_key other) (redis.delete (cache_key key) c)
        ≡ (if text_eq key other then none else redis.get (cache_key other) c)
  cached-delete key other c =
      subst
        (λ b.
          redis.get (cache_key other) (redis.delete (cache_key key) c)
          ≡ (if b then none else redis.get (cache_key other) c))
        (text_eq-cache_key key other) (redis.get-delete (cache_key key) (cache_key other) c)

  IsCoherent-fill :
      (key v : Text) (s : Store State)
      → get_row key s.table ≡ some v
      → IsCoherent s
      → IsCoherent (record s { cache = redis.set (cache_key key) v cache_ttl_seconds s.cache })
  IsCoherent-fill key v s stored h other u hit = elim (Bool-cases (text_eq key other)) [
    | inl same ↦ cc (same, text_eq-eq key other same, stored, hit, cached-set key other v s.cache)
    | inr differs ↦ h other u (cc (differs, hit, cached-set key other v s.cache))
  ]

  IsCoherent-set :
      (key v : Text) (admin_id : Option ℕ) (s : Store State)
      → IsCoherent s
      → IsCoherent (set redis key v admin_id s)
  unfolding set
  IsCoherent-set key v admin_id s h other u hit = elim (Bool-cases (text_eq key other)) [
    | inl same ↦ cc (same, hit, cached-delete key other s.cache)
    | inr differs ↦
        get_row-set_row_other key other v admin_id s.table differs
        ∙ h other u (cc (differs, hit, cached-delete key other s.cache))
  ]

  IsCoherent-wait :
      (seconds : ℕ) (s : Store State)
      → IsCoherent s
      → IsCoherent (record s { cache = redis.pass_time seconds s.cache })
  IsCoherent-wait seconds s h key v hit =
      elim (redis.get-pass_time seconds (cache_key key) s.cache) [
        | inl gone ↦ cc
        | inr kept ↦ h key v (sym kept ∙ hit)
      ]

  -- A `get` of a coherent store reads the table.
  get-plain :
      (key : Text) (s : Store State)
      → IsCoherent s
      → ((get redis key s).0 ≡ get_row key s.table)
        × ((get redis key s).1.table ≡ s.table)
        × IsCoherent (get redis key s).1
  unfolding get
  get-plain key s h = elim (Option-cases (redis.get (cache_key key) s.cache)) [
    | inr (v, hit) ↦ rw (get, hit) (sym (h key v hit), refl, h)
    | inl miss ↦
        rw (get, miss)
          (elim (Option-cases (get_row key s.table)) [
            | inl absent ↦ rw absent (refl, refl, h)
            | inr (v, stored) ↦ rw stored (refl, refl, IsCoherent-fill key v s stored h)
          ])
  ]

  call-plain :
      (c : Call) (s : Store State)
      → IsCoherent s
      → ((call c s).0 ≡ (plain c s.table).0)
        × ((call c s).1.table ≡ (plain c s.table).1)
        × IsCoherent (call c s).1
  unfolding call plain set get_all
  call-plain (get_call key) s h =
      let (same, kept, h') = get-plain key s h in (ap value same, kept, h')
  call-plain (set_call key text admin_id) s h = (refl, refl, IsCoherent-set key text admin_id s h)
  call-plain get_all_call s h = (refl, refl, h)
  call-plain (wait seconds) s h = (refl, refl, IsCoherent-wait seconds s h)

  -- Where the cache holds nothing that the table does not hold, the cached service answers every
  -- list of calls, each committed before the next, as the table alone does, however long the pauses
  -- between them are; so a value is visible as soon as it was set.
  pub run-plain :
      (calls : List Call) (s : Store State) → IsCoherent s → run calls s ≡ plain_run calls s.table
  unfolding run plain_run
  run-plain [] s h = refl
  run-plain (c ∷ calls) s h =
      let (same, kept, h') = call-plain c s h in cc (same, kept, run-plain calls (call c s).1 h')
