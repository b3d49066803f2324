-- ===== src/Exams/Excel/Complete.antt =====
-- What a parsed spreadsheet holds.
use testify.Common.{
  ℕ, suc, Bool, false, Option, none, some, Text, List, [], ◌∷◌, ◌++◌, ◌≡◌, ◌+◌, ◌==◌, length, map,
  count, All, Distinct, refl, arith, ap, subst,
}
use testify.Models.{Section, rus_tili, pedagogik, kasbiy, other}
use testify.Exams.Validation.{is_seen, Placed, in_section_of}
use testify.Exams.Validation.Complete.{IsComplete, position_of}
use testify.Exams.Form.Cards.{no_entries}
use testify.Exams.Excel.Data.{
  Cell, Cells, Message, ParseError, ParsedQuestion, RowResult, SectionCounts, Collected,
  ParseResult, parsed_test, parse_errors, result_of, add_section, cells_of, collect, no_counts,
  file_errors, count_errors, section_errors,
}
use testify.Exams.Excel.Data
use testify.Exams.Excel.{validate_row, row_of, build_question, read_rows, parse_rows, parse}
use testify.Exams.Excel.Rows.{
  IsPlaced, placed, IsTaken, row_of-IsTaken, validate_row-IsPlaced, map-nil,
}

-- The questions of the rows after a prefix whose positions and counts are known.
pub record IsRead (n : ℕ) (seen : List ℕ) (counts : SectionCounts) (all : Collected) : Type 0 where
  pub rows : length all.questions ≡ n
  pub sound : All IsPlaced all.questions
  pub apart : Distinct position_of (map placed all.questions)
  pub unseen : All (λ q. is_seen q.position seen ≡ false) all.questions
  pub rus_tili_count :
      all.counts.rus_tili_count
      ≡ counts.rus_tili_count + count (in_section_of rus_tili) (map placed all.questions)
  pub pedagogik_count :
      all.counts.pedagogik_count
      ≡ counts.pedagogik_count + count (in_section_of pedagogik) (map placed all.questions)
  pub kasbiy_count :
      all.counts.kasbiy_count
      ≡ counts.kasbiy_count + count (in_section_of kasbiy) (map placed all.questions)

unseen-apart :
    (position : ℕ) (seen : List ℕ) (questions : List ParsedQuestion)
    → All (λ q. is_seen q.position (position ∷ seen) ≡ false) questions
    → (count (λ y. position_of y == position) (map placed questions) ≡ 0)
      × All (λ q. is_seen q.position seen ≡ false) questions
unfolding count
unseen-apart position seen [] h = (refl, tt)
unseen-apart position seen (q ∷ questions) h =
    let (apart, unseen) = unseen-apart position seen questions h.1 in
    let first = h.0 in (ground (arith, first, apart), (ground (arith, first), unseen))

-- A question counts in its section.
count-add_section :
    (section : Section) (position : ℕ) (questions : List Placed) (counts : SectionCounts)
    (all : SectionCounts)
    → (all.rus_tili_count
        ≡ (add_section section counts).rus_tili_count + count (in_section_of rus_tili) questions)
    → (all.pedagogik_count
        ≡ (add_section section counts).pedagogik_count + count (in_section_of pedagogik) questions)
    → (all.kasbiy_count
        ≡ (add_section section counts).kasbiy_count + count (in_section_of kasbiy) questions)
    → (all.rus_tili_count
        ≡ counts.rus_tili_count + count (in_section_of rus_tili) ((section, position) ∷ questions))
      × ((all.pedagogik_count
            ≡ counts.pedagogik_count
              + count (in_section_of pedagogik) ((section, position) ∷ questions))
          × (all.kasbiy_count
              ≡ counts.kasbiy_count
                + count (in_section_of kasbiy) ((section, position) ∷ questions)))
unfolding count
count-add_section rus_tili position questions counts all r p k =
    (omega (arith, r), (omega (arith, p), omega (arith, k)))
count-add_section pedagogik position questions counts all r p k =
    (omega (arith, r), (omega (arith, p), omega (arith, k)))
count-add_section kasbiy position questions counts all r p k =
    (omega (arith, r), (omega (arith, p), omega (arith, k)))
count-add_section (other name) position questions counts all r p k =
    (omega (arith, r), (omega (arith, p), omega (arith, k)))

module _ (show : Cell → Text) (is_space : ℕ → Bool) (upper lower : Text → Text) where
  collect-IsRead :
      (line n : ℕ) (seen : List ℕ) (counts : SectionCounts) (q : ParsedQuestion) (r : RowResult)
      (rest : Collected)
      → IsTaken show is_space upper lower seen counts q r
      → IsRead n r.seen r.counts rest
      → IsRead (suc n) seen counts (collect line r rest)
  collect-IsRead line n seen counts q r rest taken read =
      let known =
        subst (λ t. IsRead n (q.position ∷ seen) t rest) taken.counts_after
          (subst (λ s. IsRead n s r.counts rest) taken.seen_after read) in
      let fresh = unseen-apart q.position seen rest.questions known.unseen in
      let sums =
        count-add_section q.section q.position (map placed rest.questions) counts rest.counts
          known.rus_tili_count known.pedagogik_count known.kasbiy_count in
      rw (collect, taken.question)
        (record {
          rows = ap suc known.rows;
          sound = (taken.sound, known.sound);
          apart = (fresh.0, known.apart);
          unseen = (taken.unseen, fresh.1);
          rus_tili_count = sums.0;
          pedagogik_count = sums.1.0;
          kasbiy_count = sums.1.1;
        })

  pub read_rows-IsRead :
      (line : ℕ) (seen : List ℕ) (counts : SectionCounts) (rows : List (List Cell))
      → (read_rows show is_space upper lower line seen counts rows).errors ≡ []
      → IsRead (length rows) seen counts (read_rows show is_space upper lower line seen counts rows)
  unfolding read_rows count
  read_rows-IsRead line seen counts [] h = record {
    rows = refl;
    sound = tt;
    apart = tt;
    unseen = tt;
    rus_tili_count = omega arith;
    pedagogik_count = omega arith;
    kasbiy_count = omega arith;
  }
  read_rows-IsRead line seen counts (row ∷ rows) h =
      let c = cells_of row in
      let messages = validate_row show is_space upper lower c in
      let r = row_of show is_space upper lower seen counts c messages in
      let (clean, later) = no_entries h in
      collect-IsRead line (length rows) seen counts
        (build_question show is_space upper lower c (Data.position_of c.position)) r
        (read_rows show is_space upper lower (line + 1) r.seen r.counts rows)
        (row_of-IsTaken show is_space upper lower seen counts c messages
          (validate_row-IsPlaced show is_space upper lower c) (map-nil _ _ clean))
        (read_rows-IsRead (line + 1) r.seen r.counts rows later)

pub result_of-parsed :
    (errors : List ParseError) (questions questions' : List ParsedQuestion)
    → result_of errors questions ≡ parsed_test questions'
    → (errors ≡ []) × (questions ≡ questions')
result_of-parsed [] questions questions' h = (refl, cc)
result_of-parsed (e ∷ errors) questions questions' h = cc

section_errors-nil :
    (section : Section) (actual expected : ℕ)
    → section_errors section actual expected ≡ []
    → actual ≡ expected
section_errors-nil section actual expected h = ground (arith, h)

pub length-placed :
    (questions : List ParsedQuestion) → length (map placed questions) ≡ length questions
length-placed [] = refl
length-placed (q ∷ questions) = ap suc (length-placed questions)

count_errors-nil : (n : ℕ) → count_errors n ≡ [] → n ≡ 50
count_errors-nil n h = ground (arith, h)

module _ (show : Cell → Text) (is_space : ℕ → Bool) (upper lower : Text → Text) where
  parse_rows-IsComplete :
      (rows : List (List Cell)) (questions : List ParsedQuestion)
      → parse_rows show is_space upper lower rows ≡ parsed_test questions
      → IsComplete (map placed questions) × All IsPlaced questions
  unfolding parse_rows
  parse_rows-IsComplete rows questions h =
      let all = read_rows show is_space upper lower 2 [] no_counts rows in
      let (clean, same) =
        result_of-parsed
          (count_errors (length rows) ++ (all.errors ++ file_errors (length rows) all.counts))
          all.questions questions h in
      let (counted, later) = no_entries clean in
      let (none_left, sections) = no_entries later in
      let read = read_rows-IsRead show is_space upper lower 2 [] no_counts rows none_left in
      let fifty = count_errors-nil (length rows) counted in
      let (r, pk) = no_entries (subst (λ n. file_errors n all.counts ≡ []) fifty sections) in
      let (p, k) = no_entries pk in
      let rows_read = read.rows in
      let placed_rows = length-placed all.questions in
      let rus_tili_sum = read.rus_tili_count in
      let pedagogik_sum = read.pedagogik_count in
      let kasbiy_sum = read.kasbiy_count in
      let rs = section_errors-nil rus_tili all.counts.rus_tili_count 35 r in
      let ps = section_errors-nil pedagogik all.counts.pedagogik_count 10 p in
      let ks = section_errors-nil kasbiy all.counts.kasbiy_count 5 k in
      subst (λ qs. IsComplete (map placed qs) × All IsPlaced qs) same
        (
          record {
            fifty = omega (arith, placed_rows, rows_read, fifty);
            positions = read.apart;
            rus_tili_count = omega (arith, rus_tili_sum, rs);
            pedagogik_count = omega (arith, pedagogik_sum, ps);
            kasbiy_count = omega (arith, kasbiy_sum, ks);
          },
          read.sound,
        )

  -- A parsed file holds a complete test: 50 questions at different positions, 35, 10 and 5 of them in
  -- the sections, each with a position of its section and one of the four options.
  pub parse-IsComplete :
      (book : Option (Option (List (List Cell)))) (questions : List ParsedQuestion)
      → parse show is_space upper lower book ≡ parsed_test questions
      → IsComplete (map placed questions) × All IsPlaced questions
  unfolding parse
  parse-IsComplete none questions h = cc
  parse-IsComplete (some none) questions h = cc
  parse-IsComplete (some (some rows)) questions h = parse_rows-IsComplete rows questions h
