-- ===== src/Web/Login.antt =====
-- The login of the web panel: the codes, the throttle and the sessions of app/web/auth.py, and
-- `login_submit` of app/web/handlers/login.py. What `secrets` draws is an argument.
pub mod RoundTrip
use testify.Common.{
  ℕ, zero, suc, Bool, true, false, Option, none, some, Text, text_eq, List, [], ◌∷◌, ◌≡◌, ◌+◌, ◌==◌,
  ◌&&◌, not, leb, length, is_none, if◌then◌else◌,
}
use testify.Effects.{Result, ok, err, Action, pure, raise, ◌>>=◌, ◌>>◌, value_error}
use testify.Web.Auth.{Redis, admin_id_key, csrf_key}

-- redis.asyncio on the three kinds of keys, each named by what the key ends in: `weblogin` by the
-- code, `weblogin_attempts` by the address, `websession` by the token. `none`, and false for
-- `expire_attempts`, is a `RedisError`.
pub record LoginRedis : Type 1 where
  pub sessions : Redis
  pub code_at : Text → sessions.State → Option Text
  pub set_nx : Text → Text → ℕ → sessions.State → Bool × sessions.State
  pub getdel : Text → sessions.State → Option Text × sessions.State
  pub incr : Text → sessions.State → Option ℕ × sessions.State
  pub expire_attempts : Text → ℕ → sessions.State → Bool × sessions.State
  pub hset : Text → List (Text × Text) → sessions.State → sessions.State
  pub code_at-set_nx :
      (code value : Text) (ttl : ℕ) (s : sessions.State)
      → (set_nx code value ttl s).0 ≡ true
      → code_at code (set_nx code value ttl s).1 ≡ some value
  pub getdel-code_at : (code : Text) (s : sessions.State) → (getdel code s).0 ≡ code_at code s
  pub code_at-getdel : (code : Text) (s : sessions.State) → code_at code (getdel code s).1 ≡ none
  pub code_at-incr :
      (code ip : Text) (s : sessions.State) → code_at code (incr ip s).1 ≡ code_at code s
  pub code_at-expire_attempts :
      (code ip : Text) (ttl : ℕ) (s : sessions.State)
      → code_at code (expire_attempts ip ttl s).1 ≡ code_at code s
  pub code_at-hset :
      (code token : Text) (fields : List (Text × Text)) (s : sessions.State)
      → code_at code (hset token fields s) ≡ code_at code s
  pub code_at-expire :
      (code token : Text) (ttl : ℕ) (s : sessions.State)
      → code_at code (sessions.expire token ttl s) ≡ code_at code s
  pub hgetall-getdel :
      (token code : Text) (s : sessions.State)
      → sessions.hgetall token (getdel code s).1 ≡ sessions.hgetall token s
  pub hgetall-incr :
      (token ip : Text) (s : sessions.State)
      → sessions.hgetall token (incr ip s).1 ≡ sessions.hgetall token s
  pub hgetall-expire_attempts :
      (token ip : Text) (ttl : ℕ) (s : sessions.State)
      → sessions.hgetall token (expire_attempts ip ttl s).1 ≡ sessions.hgetall token s
  pub hgetall-hset :
      (token : Text) (fields : List (Text × Text)) (s : sessions.State)
      → sessions.hgetall token s ≡ []
      → sessions.hgetall token (hset token fields s) ≡ fields
  pub hgetall-expire :
      (token other : Text) (ttl : ℕ) (s : sessions.State)
      → sessions.hgetall token (sessions.expire other ttl s) ≡ sessions.hgetall token s

-- What `login_submit` answers.
pub data LoginAnswer : Type 0 where
  rate_limited bad_code : LoginAnswer
  logged_in : Text → LoginAnswer

-- `_ATTEMPT_WINDOW_SECONDS`
abbrev pub attempt_window_seconds : ℕ
attempt_window_seconds = 600

-- `code.isdigit() and len(code) == 6`; `is_digit` is `str.isdigit` of a character.
unfoldable pub all_digits : (ℕ → Bool) → Text → Bool
all_digits is_digit [] = true
all_digits is_digit (c ∷ code) = is_digit c && all_digits is_digit code

unfoldable pub is_code : (ℕ → Bool) → Text → Bool
unfolding all_digits
is_code is_digit code = all_digits is_digit code && length code == 6

module _ (redis : LoginRedis) where
  abbrev pub State : Type 0
  State = redis.sessions.State

  -- The loop of `issue_login_code` from a round on; `none` is its `RuntimeError`.
  unfoldable pub issue_from : (ℕ → Text) → Text → ℕ → ℕ → ℕ → State → Option Text × State
  issue_from draw admin_id ttl i zero s = (none, s)
  issue_from draw admin_id ttl i (suc left) s =
      let (stored, s') = redis.set_nx (draw i) admin_id ttl s in
      let rest = issue_from draw admin_id ttl (i + 1) left s' in
      if stored then (some (draw i), s') else rest

  unfoldable pub issue_login_code : (ℕ → Text) → Text → ℕ → State → Option Text × State
  unfolding issue_from
  issue_login_code draw admin_id ttl = issue_from draw admin_id ttl 0 5

  -- `int(raw)`, with `int_of` as Python's `int`.
  abbrev pub admin_of : (Text → Option ℕ) → Option Text → Result (Option ℕ)
  admin_of int_of none = ok none
  admin_of int_of (some raw) = elim (int_of raw) [ none ↦ err value_error | some n ↦ ok (some n) ]

  unfoldable pub consume_login_code :
      (ℕ → Bool) → (Text → Option ℕ) → Text → Action State (Option ℕ)
  consume_login_code is_digit int_of code s =
      if is_code is_digit code
      then (let (raw, s') = redis.getdel code s in (admin_of int_of raw, s'))
      else (ok none, s)

  -- A `RedisError` of either call refuses the attempt.
  abbrev pub within : ℕ → ℕ → Bool → Bool
  within max_attempts n done = done && leb n max_attempts

  abbrev pub check_count : Text → ℕ → Option ℕ → State → Bool × State
  check_count ip max_attempts none s = (false, s)
  check_count ip max_attempts (some n) s =
      if n == 1
      then (let (done, s') = redis.expire_attempts ip attempt_window_seconds s in
          (within max_attempts n done, s'))
      else (within max_attempts n true, s)

  unfoldable pub check_login_rate : Text → ℕ → State → Bool × State
  check_login_rate ip max_attempts s =
      let (n, s') = redis.incr ip s in check_count ip max_attempts n s'

  unfoldable pub create_session : Text → Text → Text → ℕ → State → State
  create_session token csrf admin_id ttl s =
      redis.sessions.expire token ttl
        (redis.hset token ((admin_id_key, admin_id) ∷ (csrf_key, csrf) ∷ []) s)

  -- `login_submit` after the throttle, on the stripped code; `str_of` is Python's `str` of an id.
  abbrev pub open_session :
      (ℕ → Text) → Text → Text → ℕ → Result (Option ℕ) → State → Result LoginAnswer × State
  open_session str_of token csrf ttl (err e) s = (err e, s)
  open_session str_of token csrf ttl (ok none) s = (ok bad_code, s)
  open_session str_of token csrf ttl (ok (some admin_id)) s =
      (ok (logged_in token), create_session token csrf (str_of admin_id) ttl s)

  unfoldable pub login_submit :
      (ℕ → Bool)
      → (Text → Option ℕ)
      → (ℕ → Text)
      → Text
      → ℕ
      → Text
      → Text
      → Text
      → ℕ
      → Action State LoginAnswer
  unfolding check_login_rate consume_login_code create_session
  login_submit is_digit int_of str_of ip max_attempts code token csrf ttl s =
      let (allowed, s') = check_login_rate ip max_attempts s in
      if allowed
      then (let (found, s'') = consume_login_code is_digit int_of code s' in
          open_session str_of token csrf ttl found s'')
      else (ok rate_limited, s')
