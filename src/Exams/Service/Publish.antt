-- ===== src/Exams/Service/Publish.antt =====
-- What publishing leaves in the `tests` table.
use testify.Common.{
  ℕ, ◌≡◌, ◌≤◌, ◌+◌, List, [], ◌∷◌, some, true, count, find, update, refl, arith, Option-cases, inl,
  inr, count-update, count-and_le, ==_iff, find-some, Distinct, ◌==◌, Bool-cases, subst,
  find-none-count, count-update_le, ◌⊎◌,
}
use testify.Effects.{ok, outcome, after, err, publish_conflict}
use testify.Models.{Test, Database, is_active, is_draft}
use testify.Exams.Repository.{
  has_id, is_draft_row, is_active_row, is_active_with, activated_row, archived_row, get_by_id,
  get_active, mark_active, mark_archived, list_missing_image_positions,
}
use testify.Exams.Service.{publish, archive_other}

pub count_active-update :
    (id now : ℕ) (tests : List Test)
    → count is_active_row (update (is_draft_row id) (activated_row now) tests)
      ≡ count is_active_row tests + count (is_draft_row id) tests
unfolding count update
count_active-update id now [] = refl
count_active-update id now (t ∷ tests) = ground (arith, count_active-update id now tests)

-- Where ids are unique and a draft row was activated, the row with its id is active.
find-activated :
    (id now : ℕ) (tests : List Test) (t : Test)
    → count (has_id id) tests ≤ 1
    → 1 ≤ count (is_draft_row id) tests
    → find (has_id id) (update (is_draft_row id) (activated_row now) tests) ≡ some t
    → is_active t.status ≡ true
unfolding count update find
find-activated id now [] t single draft_row h = ground arith
find-activated id now (x ∷ tests) t single draft_row h =
    ground (
      arith,
      count-and_le (has_id id) (λ y. is_draft y.status) tests,
      find-activated id now tests t,
    )

module _ (draft_id now now' : ℕ) (db : Database) where
  -- the database between the archiving and the activation
  abbrev pub middle : Database
  middle = after (archive_other draft_id now (get_active db)) db

  pub count_id-middle : count (has_id draft_id) middle.tests ≡ count (has_id draft_id) db.tests
  unfolding mark_archived
  count_id-middle = elim (Option-cases (get_active db)) [
    | inl idle ↦ rw idle refl
    | inr (t, busy) ↦ ground (
      arith,
      busy,
      count-update (is_active_with t.id) (has_id draft_id) (archived_row now) db.tests
          (λ x e. refl),
    )
  ]

  pub publish_steps :
      (t : Test)
      → outcome (publish draft_id now now') db ≡ ok t
      → (list_missing_image_positions draft_id db ≡ [])
        × (count (is_draft_row draft_id) middle.tests ≡ 1)
        × (count is_active_row middle.tests ≡ 0)
        × ((after (publish draft_id now now') db).tests
            ≡ update (is_draft_row draft_id) (activated_row now') middle.tests)
        × (get_by_id draft_id (after (publish draft_id now now') db) ≡ some t)
  unfolding publish mark_active
  publish_steps t h = elim (Option-cases (get_active db)) [
    | inl idle ↦ ground (arith, idle)
    | inr (current, busy) ↦ ground (arith, busy)
  ]

-- Where the draft's id is unique and `publish` returns a test, it is the draft's row, now active; it
-- is the only active test, whichever was active before; and no question of the draft lacks its image.
pub publish-active :
    (draft_id now now' : ℕ) (db : Database) (t : Test)
    → count (has_id draft_id) db.tests ≤ 1
    → outcome (publish draft_id now now') db ≡ ok t
    → let left = after (publish draft_id now now') db in
      (t.id ≡ draft_id)
      × (is_active t.status ≡ true)
      × (get_by_id draft_id left ≡ some t)
      × (count is_active_row left.tests ≡ 1)
      × (list_missing_image_positions draft_id db ≡ [])
unfolding get_by_id
publish-active draft_id now now' db t single h =
    let (images, one_draft, none_active, written, found) = publish_steps draft_id now now' db t h in
    let rows = (middle draft_id now now' db).tests in
    let found' : find (has_id draft_id) (update (is_draft_row draft_id) (activated_row now') rows)
        ≡ some t =
      rw written at found in
    (
      (==_iff t.id draft_id).0 (find-some (has_id draft_id) _ t found),
      find-activated draft_id now' rows t
          (omega (arith, single, count_id-middle draft_id now now' db)) (omega (arith, one_draft))
          found',
      found,
      rw written (omega (arith, count_active-update draft_id now' rows, one_draft, none_active)),
      images,
    )

-- ---------- the index on the active test ----------

count_id_le :
    (id : ℕ) (tests : List Test) → Distinct (λ t. t.id) tests → count (has_id id) tests ≤ 1
unfolding count
count_id_le id [] h = omega arith
count_id_le id (t ∷ tests) h = elim (Bool-cases (t.id == id)) [
  | inl hit ↦
      let alone =
        subst (λ k. count (λ (y : Test). y.id == k) tests ≡ 0) ((==_iff t.id id).0 hit) h.0 in
      rw hit (ground (arith, alone))
  | inr miss ↦ rw miss (omega (arith, count_id_le id tests h.1))
]

-- An active row with an id leaves one row fewer for the drafts with it.
draft_beside_active :
    (tests : List Test) (t : Test)
    → find is_active_row tests ≡ some t
    → count (is_draft_row t.id) tests + 1 ≤ count (has_id t.id) tests
unfolding count find
draft_beside_active [] t h = ground arith
draft_beside_active (x ∷ tests) t h =
    ground (
      arith,
      count-and_le (has_id t.id) (λ y. is_draft y.status) tests,
      draft_beside_active tests t,
    )

-- Archiving the first active row of at most one leaves none.
archived_none :
    (now : ℕ) (tests : List Test) (t : Test)
    → count is_active_row tests ≤ 1
    → find is_active_row tests ≡ some t
    → count is_active_row (update (is_active_with t.id) (archived_row now) tests) ≡ 0
unfolding count find update
archived_none now [] t single h = ground arith
archived_none now (x ∷ tests) t single h = ground (
  arith,
  count-update_le (is_active_with t.id) is_active_row (archived_row now) tests (λ y e no. refl),
  archived_none now tests t,
)

module _ (draft_id now now' : ℕ) (db : Database) where
  -- Before the activation there is room for it.
  middle_room :
      Distinct (λ t. t.id) db.tests
      → count is_active_row db.tests ≤ 1
      → let rows = (middle draft_id now now' db).tests in
        (count (is_draft_row draft_id) rows ≡ 0)
        ⊎ (count (is_draft_row draft_id) rows + count is_active_row rows ≤ 1)
  unfolding mark_archived get_active
  middle_room apart single =
      let ids = count_id_le draft_id db.tests apart in
      let same = count_id-middle draft_id now now' db in
      let drafts =
        count-and_le (has_id draft_id) (λ y. is_draft y.status)
          (middle draft_id now now' db).tests in
      elim (Option-cases (get_active db)) [
        | inl idle ↦
            inr
              (ground (arith, idle, ids, same, drafts, find-none-count is_active_row db.tests idle))
        | inr (t, busy) ↦ elim (Bool-cases (t.id == draft_id)) [
          | inl itself ↦ inl (
              ground (
                arith,
                busy,
                itself,
                count_id_le t.id db.tests apart,
                subst (λ k. count (is_draft_row k) db.tests + 1 ≤ count (has_id k) db.tests)
                    ((==_iff t.id draft_id).0 itself) (draft_beside_active db.tests t busy),
                ids,
              ))
          | inr other ↦ inr (
              ground
                (arith, busy, other, ids, same, drafts, archived_none now db.tests t single busy))
        ]
      ]

  conflict_room :
      outcome (publish draft_id now now') db ≡ err publish_conflict
      → let rows = (middle draft_id now now' db).tests in
        (1 ≤ count (is_draft_row draft_id) rows)
        × (2 ≤ count (is_draft_row draft_id) rows + count is_active_row rows)
  unfolding publish mark_active
  conflict_room h = elim (Option-cases (get_active db)) [
    | inl idle ↦ ground (arith, idle)
    | inr (current, busy) ↦ ground (arith, busy)
  ]

  -- Where ids are unique and at most one test is active, the index does not refuse the activation.
  pub publish-no_conflict :
      Distinct (λ t. t.id) db.tests
      → count is_active_row db.tests ≤ 1
      → outcome (publish draft_id now now') db ≡ err publish_conflict
      → ⊥
  publish-no_conflict apart single h =
      let (some_draft, two) = conflict_room h in
      elim (middle_room apart single) [
        | inl no_draft ↦ omega (arith, some_draft, no_draft)
        | inr room ↦ omega (arith, two, room)
      ]
