-- ===== src/Utils/Html.antt =====
-- `html_escape` and `truncate` of app/utils/text.py.
pub mod Laws
use testify.Common.{
  ℕ, zero, suc, Option, none, some, List, [], ◌∷◌, ◌++◌, Text, Bool, ◌==◌, ◌-◌, leb, length,
  if◌then◌else◌, take,
}

abbrev pub amp_entity : Text
amp_entity = b'&' ∷ b'a' ∷ b'm' ∷ b'p' ∷ b';' ∷ []

abbrev pub lt_entity : Text
lt_entity = b'&' ∷ b'l' ∷ b't' ∷ b';' ∷ []

abbrev pub gt_entity : Text
gt_entity = b'&' ∷ b'g' ∷ b't' ∷ b';' ∷ []

-- `html.escape(…, quote=False)` on one character.
abbrev pub escape_char : ℕ → Text
escape_char c =
    if c == b'&'
    then amp_entity
    else if c == b'<'
    then lt_entity
    else if c == b'>'
    then gt_entity
    else c ∷ []

unfoldable pub escape : Text → Text
escape [] = []
escape (c ∷ s) = escape_char c ++ escape s

unfoldable pub html_escape : Option Text → Text
unfolding escape
html_escape none = []
html_escape (some s) = escape s

-- `truncate`; a negative `max_len` gives the empty text too.
unfoldable pub truncate : Text → ℕ → Text → Text
truncate text max_len suffix =
    if max_len == 0
    then []
    else if leb (length text) max_len
    then text
    else take (max_len - length suffix) text ++ suffix
