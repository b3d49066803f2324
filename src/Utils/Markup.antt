-- ===== src/Utils/Markup.antt =====
-- app/utils/markup.py. The patterns `\*\*(.+?)\*\*` and `__(.+?)__` are read by one machine over the
-- characters, whose marker is the character `c` twice. A first opening marker that is never closed
-- leaves no match behind it, so the machine gives its text back as it stands.
pub mod Tags
use testify.Common.{
  ℕ, Bool, List, [], ◌∷◌, ◌++◌, Text, length, ◌==◌, ◌%◌, true, false, if◌then◌else◌, ◌&&◌, ◌||◌,
  not, Option, suc,
}
use testify.Utils.Strip.{strip, is_empty}
use testify.Utils.Html.{html_escape}

-- What the scan of a pattern finds: text outside the matches, and the group of a match.
pub data Segment : Type 0 where
  plain group : Text → Segment

-- Where the scan stands: outside a match, after one character of a marker, right after an opening
-- marker, inside a match with the text so far, and there after one character of a marker.
pub data Scan : Type 0 where
  outside half opened : Scan
  inside closing : Text → Scan

abbrev pub step : ℕ → Scan → ℕ → Scan × List Segment
step c outside a = if a == c then (half, []) else (outside, plain (a ∷ []) ∷ [])
step c half a = if a == c then (opened, []) else (outside, plain (c ∷ a ∷ []) ∷ [])
step c opened a = (inside (a ∷ []), [])
step c (inside text) a = if a == c then (closing text, []) else (inside (text ++ a ∷ []), [])
step c (closing text) a =
    if a == c then (outside, group text ∷ []) else (inside (text ++ c ∷ a ∷ []), [])

abbrev pub finish : ℕ → Scan → List Segment
finish c outside = []
finish c half = plain (c ∷ []) ∷ []
finish c opened = plain (c ∷ c ∷ []) ∷ []
finish c (inside text) = plain (c ∷ c ∷ text) ∷ []
finish c (closing text) = plain (c ∷ c ∷ text ++ c ∷ []) ∷ []

-- `re.finditer`, with the text between the matches
unfoldable pub segments : ℕ → Scan → Text → List Segment
segments c state [] = finish c state
segments c state (a ∷ s) = let next = step c state a in next.1 ++ segments c next.0 s

-- The replacement `before\1after` of the matches.
unfoldable pub replace : Text → Text → List Segment → Text
replace before after [] = []
replace before after (plain text ∷ found) = text ++ replace before after found
replace before after (group text ∷ found) =
    before ++ (text ++ (after ++ replace before after found))

abbrev pub sub : ℕ → Text → Text → Text → Text
sub c before after text = replace before after (segments c outside text)

-- `text.count` of the marker; the flag says that its first character was read.
unfoldable pub count_marker : ℕ → Bool → Text → ℕ
count_marker c flag [] = 0
count_marker c flag (a ∷ s) =
    let found = flag && a == c in
    let rest = count_marker c (not flag && a == c) s in if found then suc rest else rest

abbrev pub is_blank_group : (ℕ → Bool) → Segment → Bool
is_blank_group is_space (plain text) = false
is_blank_group is_space (group text) = is_empty (strip is_space text)

-- `_has_empty_pair`
unfoldable pub has_empty_pair : (ℕ → Bool) → List Segment → Bool
has_empty_pair is_space [] = false
has_empty_pair is_space (found ∷ rest) =
    is_blank_group is_space found || has_empty_pair is_space rest

-- The messages of `validate_markup`.
pub data Flaw : Type 0 where
  unbalanced_bold unbalanced_italic empty_markup : Flaw

abbrev pub flaw_if : Bool → Flaw → List Flaw
flaw_if test flaw = if test then flaw ∷ [] else []

unfoldable pub validate_markup : (ℕ → Bool) → Text → List Flaw
validate_markup is_space text =
    flaw_if (not (count_marker b'*' false text % 2 == 0)) unbalanced_bold
    ++ flaw_if (not (count_marker b'_' false text % 2 == 0)) unbalanced_italic
    ++ flaw_if
        (has_empty_pair is_space (segments b'*' outside text)
          || has_empty_pair is_space (segments b'_' outside text))
        empty_markup

abbrev pub bold_open : Text
bold_open = b'<' ∷ b'b' ∷ b'>' ∷ []

abbrev pub bold_close : Text
bold_close = b'<' ∷ b'/' ∷ b'b' ∷ b'>' ∷ []

abbrev pub italic_open : Text
italic_open = b'<' ∷ b'i' ∷ b'>' ∷ []

abbrev pub italic_close : Text
italic_close = b'<' ∷ b'/' ∷ b'i' ∷ b'>' ∷ []

unfoldable pub render_markup : Option Text → Text
render_markup text =
    sub b'_' italic_open italic_close (sub b'*' bold_open bold_close (html_escape text))

unfoldable pub visible_length : Text → ℕ
visible_length text = length (sub b'_' [] [] (sub b'*' [] [] text))
