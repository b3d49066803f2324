-- ===== src/Utils/Markup/Tags.antt =====
-- The tags of the rendered text.
use testify.Common.{
  ℕ, Bool, Option, none, some, [], ◌∷◌, ◌++◌, Text, text_eq, Bool-cases, inl, inr, refl, ◌≡◌, ◌==◌,
  ◌||◌, if◌then◌else◌, ◌∙◌, ap, ◌⊎◌, subst, Option-cases, none_ne_some, sym, ==_iff,
}
use mathlib.Core.List.{append_assoc}
use testify.Utils.Html.{escape, html_escape, escape_char}
use testify.Utils.Markup.{
  Scan, segments, replace, sub, render_markup, bold_open, bold_close, italic_open, italic_close,
  outside, half, opened, inside, closing,
}

abbrev is_tag : Text → Bool
is_tag name =
    text_eq name (b'b' ∷ [])
    || text_eq name (b'/' ∷ b'b' ∷ [])
    || text_eq name (b'i' ∷ [])
    || text_eq name (b'/' ∷ b'i' ∷ [])

abbrev is_entity : Text → Bool
is_entity name =
    text_eq name (b'a' ∷ b'm' ∷ b'p' ∷ [])
    || text_eq name (b'l' ∷ b't' ∷ [])
    || text_eq name (b'g' ∷ b't' ∷ [])

-- Where a reader of brackets and entities stands: between them, or inside a tag or an entity with
-- the name read so far.
pub data Reader : Type 0 where
  between : Reader
  tag entity : Text → Reader

-- The reader gives up at an unknown tag or entity, at a bracket out of place and at a bare `&`. It
-- keeps no account of which tags are open.
abbrev read_char : Reader → ℕ → Option Reader
read_char between c =
    if c == b'<'
    then some (tag [])
    else if c == b'>'
    then none
    else if c == b'&'
    then some (entity [])
    else some between
read_char (tag name) c =
    if c == b'>'
    then if is_tag name then some between else none
    else if c == b'b' || c == b'i' || c == b'/'
    then some (tag (name ++ c ∷ []))
    else none
read_char (entity name) c =
    if c == b';'
    then if is_entity name then some between else none
    else if c == b'a' || c == b'm' || c == b'p' || c == b'l' || c == b'g' || c == b't'
    then some (entity (name ++ c ∷ []))
    else none

abbrev and_then : Option Reader → (Reader → Option Reader) → Option Reader
and_then none f = none
and_then (some state) f = f state

abbrev pub read_tags : Reader → Text → Option Reader
read_tags state [] = some state
read_tags state (c ∷ s) = and_then (read_char state c) (λ next. read_tags next s)

read_tags-append :
    (state : Reader) (s t : Text)
    → read_tags state (s ++ t) ≡ and_then (read_tags state s) (λ next. read_tags next t)
read_tags-append state [] t = refl
read_tags-append state (c ∷ s) t =
    elim (read_char state c)
      as (λ r.
        and_then r (λ next. read_tags next (s ++ t))
        ≡ and_then (and_then r (λ next. read_tags next s)) (λ next. read_tags next t)) [
          | none ↦ refl
          | some next ↦ read_tags-append next s t
        ]

-- The text that the machine has read and not given out yet.
abbrev pending : ℕ → Scan → Text
pending c outside = []
pending c half = c ∷ []
pending c opened = c ∷ c ∷ []
pending c (inside text) = c ∷ c ∷ text
pending c (closing text) = c ∷ c ∷ text ++ c ∷ []

IsRead : Reader → Text → Type 0
IsRead state s = read_tags state s ≡ some between

-- A marker stands outside the tags and the entities only.
IsMarker : ℕ → Type 0
IsMarker c = (c ≡ b'*') ⊎ (c ≡ b'_')

module _ (c : ℕ) (marker : IsMarker c) where
  marker_reads :
      (state : Reader) (s : Text) → IsRead state (c ∷ s) → (state ≡ between) × IsRead between s
  unfolding IsRead IsMarker
  marker_reads between s h = elim marker [
    | inl e ↦ (refl, subst (λ x. IsRead between (x ∷ s)) e h)
    | inr e ↦ (refl, subst (λ x. IsRead between (x ∷ s)) e h)
  ]
  marker_reads (tag name) s h = elim marker [
    | inl e ↦ absurd (none_ne_some (subst (λ x. IsRead (tag name) (x ∷ s)) e h))
    | inr e ↦ absurd (none_ne_some (subst (λ x. IsRead (tag name) (x ∷ s)) e h))
  ]
  marker_reads (entity name) s h = elim marker [
    | inl e ↦ absurd (none_ne_some (subst (λ x. IsRead (entity name) (x ∷ s)) e h))
    | inr e ↦ absurd (none_ne_some (subst (λ x. IsRead (entity name) (x ∷ s)) e h))
  ]

  -- A marker in a text that is read whole splits it in two that are.
  IsRead-split :
      (state : Reader) (s t : Text) → IsRead state (s ++ c ∷ t) → IsRead state s × IsRead between t
  unfolding IsRead
  IsRead-split state s t h = elim (Option-cases (read_tags state s)) [
    | inl e ↦ absurd (
        none_ne_some (
          sym (ap (λ r. and_then r (λ next. read_tags next (c ∷ t))) e)
          ∙ sym (read_tags-append state s (c ∷ t))
          ∙ h))
    | inr (next, e) ↦
        let parts = marker_reads next t (
          sym (ap (λ r. and_then r (λ next. read_tags next (c ∷ t))) e)
          ∙ sym (read_tags-append state s (c ∷ t))
          ∙ h) in
        (e ∙ ap some parts.0, parts.1)
  ]

  IsRead-append :
      (state : Reader) (s t : Text) → IsRead state s → IsRead between t → IsRead state (s ++ t)
  unfolding IsRead
  IsRead-append state s t left right =
      read_tags-append state s t ∙ ap (λ r. and_then r (λ next. read_tags next t)) left ∙ right

  module _ (before after : Text) (before_read : IsRead between before)
      (after_read : IsRead between after) where
    -- The group of a match is read whole, so the tags around it are read.
    IsRead-group :
        (state : Reader) (text s rest : Text)
        → IsRead state (c ∷ c ∷ text ++ c ∷ c ∷ s)
        → (IsRead between s → IsRead between rest)
        → IsRead state (before ++ (text ++ (after ++ rest)))
    IsRead-group state text s rest h f =
        let first = marker_reads state (c ∷ text ++ c ∷ c ∷ s) h in
        let second = marker_reads between (text ++ c ∷ c ∷ s) first.1 in
        let parts = IsRead-split between text (c ∷ s) second.1 in
        let third = marker_reads between s parts.1 in
        let tail = IsRead-append between after rest after_read (f third.1) in
        let body = IsRead-append between text (after ++ rest) parts.0 tail in
        let all = IsRead-append between before (text ++ (after ++ rest)) before_read body in
        subst (λ q. IsRead q (before ++ (text ++ (after ++ rest)))) (sym first.0) all

    -- One character outside the matches moves the reader on.
    IsRead-step :
        (state : Reader) (a : ℕ) (s rest : Text)
        → IsRead state (a ∷ s)
        → ((next : Reader) → IsRead next s → IsRead next rest)
        → IsRead state (a ∷ rest)
    unfolding IsRead
    IsRead-step state a s rest h f = elim (Option-cases (read_char state a)) [
      | inl e ↦ absurd (none_ne_some (sym (ap (λ r. and_then r (λ next. read_tags next s)) e) ∙ h))
      | inr (next, e) ↦
          ap (λ r. and_then r (λ q. read_tags q rest)) e
          ∙ f next (sym (ap (λ r. and_then r (λ q. read_tags q s)) e) ∙ h)
    ]

    moved :
        (state : Reader) (text p t : Text)
        → IsRead state (c ∷ c ∷ (text ++ (p ++ t)))
        → IsRead state (c ∷ c ∷ (text ++ p ++ t))
    moved state text p t = subst (λ x. IsRead state (c ∷ c ∷ x)) (sym (append_assoc text p t))

    moved_back :
        (state : Reader) (text p t : Text)
        → IsRead state (c ∷ c ∷ (text ++ p ++ t))
        → IsRead state (c ∷ c ∷ (text ++ (p ++ t)))
    moved_back state text p t = subst (λ x. IsRead state (c ∷ c ∷ x)) (append_assoc text p t)

    IsRead-replace :
        (machine : Scan) (state : Reader) (s : Text)
        → IsRead state (pending c machine ++ s)
        → IsRead state (replace before after (segments c machine s))
    unfolding replace segments
    IsRead-replace outside state [] h = h
    IsRead-replace half state [] h = h
    IsRead-replace opened state [] h = h
    IsRead-replace (inside text) state [] h = h
    IsRead-replace (closing text) state [] h = h
    IsRead-replace outside state (a ∷ s) h = elim (Bool-cases (a == c)) [
      | inl e ↦
          rw e
            (IsRead-replace half state s (subst (λ x. IsRead state (x ∷ s)) ((==_iff a c).0 e) h))
      | inr e ↦ rw e (
          IsRead-step state a s (replace before after (segments c outside s)) h
            (λ next. IsRead-replace outside next s))
    ]
    IsRead-replace half state (a ∷ s) h = elim (Bool-cases (a == c)) [
      | inl e ↦ rw e (
          IsRead-replace opened state s
            (subst (λ x. IsRead state (c ∷ x ∷ s)) ((==_iff a c).0 e) h))
      | inr e ↦ rw e (
          IsRead-step state c (a ∷ s) (a ∷ replace before after (segments c outside s)) h (λ q g.
            IsRead-step q a s (replace before after (segments c outside s)) g
              (λ next. IsRead-replace outside next s)))
    ]
    IsRead-replace opened state (a ∷ s) h = IsRead-replace (inside (a ∷ [])) state s h
    IsRead-replace (inside text) state (a ∷ s) h = elim (Bool-cases (a == c)) [
      | inl e ↦ rw e (
          IsRead-replace (closing text) state s (
            moved state text (c ∷ []) s
              (subst (λ x. IsRead state (c ∷ c ∷ (text ++ x ∷ s))) ((==_iff a c).0 e) h)))
      | inr e ↦
          rw e (IsRead-replace (inside (text ++ a ∷ [])) state s (moved state text (a ∷ []) s h))
    ]
    IsRead-replace (closing text) state (a ∷ s) h = elim (Bool-cases (a == c)) [
      | inl e ↦ rw e (
          IsRead-group state text s (replace before after (segments c outside s))
            (moved_back state text (c ∷ []) (c ∷ s) (
              subst (λ x. IsRead state (c ∷ c ∷ ((text ++ c ∷ []) ++ x ∷ s))) ((==_iff a c).0 e) h))
            (IsRead-replace outside between s))
      | inr e ↦ rw e (
          IsRead-replace (inside (text ++ c ∷ a ∷ [])) state s
            (moved state text (c ∷ a ∷ []) s (moved_back state text (c ∷ []) (a ∷ s) h)))
    ]

IsRead-escape_char : (c : ℕ) → IsRead between (escape_char c)
unfolding IsRead text_eq
IsRead-escape_char c = elim (Bool-cases (c == b'&')) [
  | inl is_amp ↦ rw is_amp refl
  | inr no_amp ↦ elim (Bool-cases (c == b'<')) [
    | inl is_lt ↦ rw (no_amp, is_lt) refl
    | inr no_lt ↦ elim (Bool-cases (c == b'>')) [
      | inl is_gt ↦ rw (no_amp, no_lt, is_gt) refl
      | inr no_gt ↦ rw (no_amp, no_lt, no_gt, no_lt, no_gt, no_amp) refl
    ]
  ]
]

IsRead-html_escape : (text : Option Text) → IsRead between (html_escape text)
unfolding IsRead html_escape escape IsMarker
IsRead-html_escape none = refl
IsRead-html_escape (some []) = refl
IsRead-html_escape (some (c ∷ s)) =
    IsRead-append b'*' (inl refl) between (escape_char c) (escape s) (IsRead-escape_char c)
      (IsRead-html_escape (some s))

-- Whatever the author typed, a reader of brackets and entities reads the rendered text whole: every
-- `<` and `>` of it belongs to `<b>`, `</b>`, `<i>` or `</i>`, and every `&` begins `&amp;`, `&lt;`
-- or `&gt;`. Of the order and the nesting of the tags this says nothing.
pub render_markup-tags :
    (text : Option Text) → read_tags between (render_markup text) ≡ some between
unfolding render_markup IsRead IsMarker text_eq
render_markup-tags text =
    IsRead-replace b'_' (inr refl) italic_open italic_close refl refl outside between
      (sub b'*' bold_open bold_close (html_escape text))
      (IsRead-replace b'*' (inl refl) bold_open bold_close refl refl outside between
        (html_escape text) (IsRead-html_escape text))
