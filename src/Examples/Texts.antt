-- ===== src/Examples/Texts.antt =====
-- Question texts as the author types them.
use testify.Common.{ℕ, Bool, Text, [], ◌∷◌, ◌++◌, ◌≡◌, ◌==◌, refl, some, none}
use testify.Utils.Html.{html_escape, escape}
use testify.Utils.Html.Laws.{read_html, read_html-html_escape}
use testify.Utils.Strip.{strip, lstrip, rstrip}
use testify.Utils.Markup.{
  render_markup, validate_markup, bold_open, bold_close, italic_open, italic_close, segments,
  replace, count_marker, has_empty_pair,
}
use testify.Utils.Markup.Tags.{read_tags, render_markup-tags, between}

-- "a<&amp;"
abbrev typed : Text
typed = b'a' ∷ b'<' ∷ b'&' ∷ b'a' ∷ b'm' ∷ b'p' ∷ b';' ∷ []

read_html-html_escape_example : read_html none (html_escape (some typed)) ≡ typed
read_html-html_escape_example = read_html-html_escape typed

-- "**a<&b**"
abbrev marked : Text
marked = b'*' ∷ b'*' ∷ b'a' ∷ b'<' ∷ b'&' ∷ b'b' ∷ b'*' ∷ b'*' ∷ []

render_markup-tags_example : read_tags between (render_markup (some marked)) ≡ some between
render_markup-tags_example = render_markup-tags (some marked)

-- "**a__b**c__"
abbrev crossed : Text
crossed = b'*' ∷ b'*' ∷ b'a' ∷ b'_' ∷ b'_' ∷ b'b' ∷ b'*' ∷ b'*' ∷ b'c' ∷ b'_' ∷ b'_' ∷ []

-- "<b>a<i>b</b>c</i>"
crossed_tags :
    render_markup (some crossed)
    ≡ bold_open ++ (b'a' ∷ italic_open ++ (b'b' ∷ bold_close ++ (b'c' ∷ italic_close)))
unfolding render_markup html_escape escape segments replace
crossed_tags = refl

abbrev is_blank : ℕ → Bool
is_blank c = c == 32

crossed_valid : validate_markup is_blank crossed ≡ []
unfolding validate_markup segments count_marker has_empty_pair strip lstrip rstrip
crossed_valid = refl
