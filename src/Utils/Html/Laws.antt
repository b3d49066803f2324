-- ===== src/Utils/Html/Laws.antt =====
-- What a reader of the escaped text sees.
use testify.Common.{
  Option, none, some, Text, text_eq, if◌then◌else◌, ℕ, ◌∷◌, ◌≡◌, All, [], ◌==◌, ◌++◌, length, refl,
  ◌≤◌, Bool-cases, arith, inl, ==_iff, inr, ◌∙◌, List, suc, ap, ◌+◌, ◌-◌, zero, take,
}
use testify.Utils.Html.{escape, html_escape, truncate, escape_char}

-- The character that an entity's name stands for; another name stays as it is written.
abbrev entity_char : Text → Text
entity_char name =
    if text_eq name (b'a' ∷ b'm' ∷ b'p' ∷ [])
    then b'&' ∷ []
    else if text_eq name (b'l' ∷ b't' ∷ [])
    then b'<' ∷ []
    else if text_eq name (b'g' ∷ b't' ∷ [])
    then b'>' ∷ []
    else b'&' ∷ name ++ b';' ∷ []

-- A reader of HTML text is between entities, or inside one with the name read so far.
abbrev read_char : Option Text → ℕ → Option Text × Text
read_char none c = if c == b'&' then (some [], []) else (none, c ∷ [])
read_char (some name) c =
    if c == b';' then (none, entity_char name) else (some (name ++ c ∷ []), [])

abbrev pub read_html : Option Text → Text → Text
read_html none [] = []
read_html (some name) [] = b'&' ∷ name
read_html state (c ∷ s) = let next = read_char state c in next.1 ++ read_html next.0 s

read_html-escape_char :
    (c : ℕ) (s : Text) → read_html none (escape_char c ++ s) ≡ c ∷ read_html none s
unfolding text_eq
read_html-escape_char c s = elim (Bool-cases (c == b'&')) [
  | inl is_amp ↦ rw ((==_iff c b'&').0 is_amp) refl
  | inr no_amp ↦ elim (Bool-cases (c == b'<')) [
    | inl is_lt ↦ rw ((==_iff c b'<').0 is_lt) refl
    | inr no_lt ↦ elim (Bool-cases (c == b'>')) [
      | inl is_gt ↦ rw ((==_iff c b'>').0 is_gt) refl
      | inr no_gt ↦ rw (no_amp, no_lt, no_gt, no_amp) refl
    ]
  ]
]

-- Escaping loses nothing: a reader of HTML who knows the three entities reads the text back, for
-- every text, one that holds `&`, `;` or an entity of its own included.
pub read_html-html_escape : (s : Text) → read_html none (html_escape (some s)) ≡ s
unfolding html_escape escape
read_html-html_escape [] = refl
read_html-html_escape (c ∷ s) =
    read_html-escape_char c (escape s) ∙ ap (λ r. c ∷ r) (read_html-html_escape s)

-- No character of the escaped text opens or closes a tag.
abbrev pub IsPlain : ℕ → Type 0
IsPlain c = (c ≡ b'<' → ⊥) × (c ≡ b'>' → ⊥)

pub escape-IsPlain : (s : Text) → All IsPlain (escape s)
unfolding escape
escape-IsPlain [] = tt
escape-IsPlain (c ∷ s) = let rest = escape-IsPlain s in ground arith

length-take : {A : Type 0} (n : ℕ) (xs : List A) → length (take n xs) ≤ n
length-take zero xs = omega arith
length-take (suc n) [] = omega arith
length-take (suc n) (x ∷ xs) = let rest = length-take n xs in omega arith

length-append : {A : Type 0} (xs ys : List A) → length (xs ++ ys) ≡ length xs + length ys
length-append [] ys = omega arith
length-append (x ∷ xs) ys = let rest = length-append xs ys in omega arith

-- A truncated text has at most `max_len` characters, the suffix included, when the suffix has no
-- more than that.
pub length-truncate :
    (s : Text) (max_len : ℕ) (suffix : Text)
    → length suffix ≤ max_len
    → length (truncate s max_len suffix) ≤ max_len
unfolding truncate
length-truncate s max_len suffix h =
    let kept = take (max_len - length suffix) s in
    ground (arith, length-take (max_len - length suffix) s, length-append kept suffix)
