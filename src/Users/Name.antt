-- ===== src/Users/Name.antt =====
-- `_is_valid_name` of app/services/user_service.py, over Python's Unicode database.
use testify.Common.{ℕ, Bool, Text, length, leb, find, is_some, is_none, ◌&&◌, ◌||◌}

-- `str.isalpha`, the first letter of `unicodedata.category`, its two separator categories, and the
-- NFC normalization followed by `str.strip`.
pub record Unicode : Type 0 where
  pub is_alpha : ℕ → Bool
  pub is_control_or_symbol : ℕ → Bool
  pub is_line_separator : ℕ → Bool
  pub is_digit : ℕ → Bool
  pub nfc_strip : Text → Text

unfoldable pub is_valid_name : Unicode → Text → Bool
is_valid_name unicode name =
    (leb 2 (length name) && leb (length name) 80)
    && is_some (find unicode.is_alpha name)
    && is_none (find (λ c. unicode.is_control_or_symbol c || unicode.is_line_separator c) name)
