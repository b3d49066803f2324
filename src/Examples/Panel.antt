-- ===== src/Examples/Panel.antt =====
-- The session gate on a store with one session, "A" of the admin 1 with the CSRF token "B".
use testify.Common.{
  ℕ, Bool, true, false, Option, some, none, Text, text_eq, [], ◌∷◌, ◌≡◌, refl, find, if◌then◌else◌,
}
use testify.Web.Auth.{
  Redis, Admin, Request, WebSession, handled, login_required, load_session, csrf_forbidden,
  admin_id_key, csrf_key,
}
use testify.Web.Auth.Gate.{IsAllowed, login_required-IsAllowed}
use testify.Examples.Data.{letter_a, letter_b}

abbrev one_session : Redis
one_session = record {
  State = Bool;
  hgetall = λ token s.
      if s
      then (if text_eq token letter_a
          then (admin_id_key, b'1' ∷ []) ∷ (csrf_key, letter_b) ∷ []
          else [])
      else [];
  delete = λ token s. false;
  expire = λ token ttl s. s;
}

abbrev pub always_one : Text → Option ℕ
always_one s = some 1

abbrev pub owner : Admin
owner = record { id = 1; telegram_id = 701 }

abbrev pub owned : WebSession
owned = record { token = letter_a; admin_id = 1; csrf = letter_b }

abbrev save_request : Text → Request
save_request csrf = record {
  cookie = some letter_a;
  is_post = true;
  is_multipart = false;
  csrf_header = none;
  csrf_form = some csrf;
  wants_json = false;
}

forged :
    (login_required one_session always_one 60 (owner ∷ []) (save_request letter_a) true).0
    ≡ csrf_forbidden
unfolding login_required load_session text_eq find
forged = refl

let_through :
    (login_required one_session always_one 60 (owner ∷ []) (save_request letter_b) true).0
    ≡ handled owned owner
unfolding login_required load_session text_eq find
let_through = refl

login_required-IsAllowed_example :
    IsAllowed one_session always_one (owner ∷ []) (save_request letter_b) true owned owner
login_required-IsAllowed_example =
    login_required-IsAllowed one_session always_one 60 (owner ∷ []) (save_request letter_b) true
      owned owner let_through
