-- ===== src/Examples/Login.antt =====
-- A login with the code 111111, on a Redis of codes and sessions.
use testify.Common.{
  ℕ, Bool, true, false, Option, none, some, Text, text_eq, List, [], ◌∷◌, ◌≡◌, ◌⊎◌, refl, ◌==◌, ◌+◌,
  is_some, if◌then◌else◌, find, arith,
}
use testify.Effects.{ok}
use testify.Settings.Coherence.{text_eq_refl}
use testify.Web.Auth.{Redis, Request, handled, login_required}
use testify.Web.Login.{
  LoginRedis, rate_limited, bad_code, logged_in, is_code, issue_login_code, check_login_rate,
  login_submit,
}
use testify.Web.Login.RoundTrip.{login_submit-login_required}
use testify.Examples.Data.{letter_a, letter_b}
use testify.Examples.Panel.{always_one, owner, owned}

-- The codes, the sessions and the attempts of the one address.
record Keys : Type 0 where
  codes : Text → Option Text
  sessions : Text → List (Text × Text)
  attempts : ℕ

abbrev session_keys : Redis
session_keys = record {
  State = Keys;
  hgetall = λ token s. s.sessions token;
  delete = λ token s. record s { sessions = λ t. if text_eq token t then [] else s.sessions t };
  expire = λ token ttl s. s;
}

abbrev stored : Text → Text → Keys → Keys
stored code value s = record s { codes = λ c. if text_eq code c then some value else s.codes c }

abbrev set_code : Text → Text → Keys → Bool × Keys
set_code code value s = if is_some (s.codes code) then (false, s) else (true, stored code value s)

set_code-stored :
    (code value : Text) (s : Keys)
    → (set_code code value s).0 ≡ true
    → (set_code code value s).1.codes code ≡ some value
set_code-stored code value s h = ground (arith, text_eq_refl code)

abbrev redis : LoginRedis
redis = record {
  sessions = session_keys;
  code_at = λ code s. s.codes code;
  set_nx = λ code value ttl s. set_code code value s;
  getdel = λ code s.
      (s.codes code, record s { codes = λ c. if text_eq code c then none else s.codes c });
  incr = λ ip s. (some (s.attempts + 1), record s { attempts = s.attempts + 1 });
  expire_attempts = λ ip ttl s. (true, s);
  hset = λ token fields s. record s {
    sessions = λ t. if text_eq token t then fields else s.sessions t;
  };
  code_at-set_nx = λ code value ttl s h. set_code-stored code value s h;
  getdel-code_at = λ code s. refl;
  code_at-getdel = λ code s. rw (text_eq_refl code) refl;
  code_at-incr = λ code ip s. refl;
  code_at-expire_attempts = λ code ip ttl s. refl;
  code_at-hset = λ code token fields s. refl;
  code_at-expire = λ code token ttl s. refl;
  hgetall-getdel = λ token code s. refl;
  hgetall-incr = λ token ip s. refl;
  hgetall-expire_attempts = λ token ip ttl s. refl;
  hgetall-hset = λ token fields s h. rw (text_eq_refl token) refl;
  hgetall-expire = λ token other ttl s. refl;
}

abbrev nothing_stored : Keys
nothing_stored = record { codes = λ c. none; sessions = λ t. []; attempts = 0 }

abbrev one : Text
one = b'1' ∷ []

abbrev code : Text
code = b'1' ∷ b'1' ∷ b'1' ∷ b'1' ∷ b'1' ∷ b'1' ∷ []

abbrev is_one : ℕ → Bool
is_one c = c == b'1'

abbrev panel_request : Request
panel_request = record {
  cookie = some letter_a;
  is_post = false;
  is_multipart = false;
  csrf_header = none;
  csrf_form = none;
  wants_json = false;
}

abbrev issued : Keys
issued = stored code one nothing_stored

issue_returns : issue_login_code redis (λ i. code) one 300 nothing_stored ≡ (some code, issued)
unfolding issue_login_code
issue_returns = refl

code_valid : is_code is_one code ≡ true
unfolding is_code
code_valid = refl

attempt_allowed : (check_login_rate redis [] 5 issued).0 ≡ true
unfolding check_login_rate
attempt_allowed = refl

login_submit-login_required_example :
    let (answer, left) =
      login_submit redis is_one always_one (λ n. one) [] 5 code letter_a letter_b 60 issued in
    let again =
      (login_submit redis is_one always_one (λ n. one) [] 5 code letter_a letter_b 60 left).0 in
    (answer ≡ ok (logged_in letter_a))
    × ((login_required session_keys always_one 60 (owner ∷ []) panel_request left).0
        ≡ handled owned owner)
    × ((again ≡ ok bad_code) ⊎ (again ≡ ok rate_limited))
unfolding find
login_submit-login_required_example =
    login_submit-login_required redis is_one always_one (λ n. one) (λ i. code) (owner ∷ []) owner
      panel_request code letter_a letter_b [] 300 5 60 nothing_stored issued issued
      (λ i. code_valid) refl issue_returns refl attempt_allowed refl refl refl refl refl
