-- ===== src/Web/Login/RoundTrip.antt =====
-- From the code that the bot issues to the gate, and the code's second use.
use testify.Utils.Strip.{is_empty}
use testify.Common.{
  ℕ, zero, suc, Bool, true, Option, none, some, some-injective, Text, [], ◌∷◌, ◌≡◌, ◌⊎◌, inl, inr,
  refl, sym, ap, ◌∙◌, subst, ◌+◌, ◌==◌, Bool-cases, List, text_eq, false, arith,
}
use testify.Effects.{ok}
use testify.Web.Auth.{
  admin_id_key, csrf_key, login_required, load_session, Admin, Redis, Request, get_by_id, handled,
  session_of,
}
use testify.Web.Login.{
  LoginRedis, rate_limited, bad_code, logged_in, is_code, State, issue_from, check_login_rate,
  check_count, consume_login_code, create_session, login_submit, attempt_window_seconds, admin_of,
  issue_login_code,
}

module _ (redis : LoginRedis) where
  -- A code that was issued is one of the draws, and Redis holds the admin for it.
  issue_from-stored :
      (draw : ℕ → Text) (admin_id code : Text) (ttl i left : ℕ) (s s' : State redis)
      → issue_from redis draw admin_id ttl i left s ≡ (some code, s')
      → (redis.code_at code s' ≡ some admin_id) × ((n : ℕ) × (code ≡ draw n))
  unfolding issue_from
  issue_from-stored draw admin_id code ttl i zero s s' h = cc
  issue_from-stored draw admin_id code ttl i (suc left) s s' h =
      elim (Bool-cases (redis.set_nx (draw i) admin_id ttl s).0) [
        | inl stored ↦
            let e : (some (draw i), (redis.set_nx (draw i) admin_id ttl s).1) ≡ (some code, s') =
              sym (rw stored refl) ∙ h in
            let same = some-injective _ _ (ap (λ (r : Option Text × State redis). r.0) e) in
            (
              subst (λ c. redis.code_at c s' ≡ some admin_id) same
                  (subst (λ t. redis.code_at (draw i) t ≡ some admin_id)
                    (ap (λ (r : Option Text × State redis). r.1) e)
                    (redis.code_at-set_nx (draw i) admin_id ttl s stored)),
              (i, sym same),
            )
        | inr taken ↦
            issue_from-stored draw admin_id code ttl (i + 1) left
              (redis.set_nx (draw i) admin_id ttl s).1 s' (sym (rw taken refl) ∙ h)
      ]

  -- The throttle touches neither codes nor sessions.
  check_count-keeps :
      (ip code token : Text) (max_attempts : ℕ) (n : Option ℕ) (s : State redis)
      → (redis.code_at code (check_count redis ip max_attempts n s).1 ≡ redis.code_at code s)
        × (redis.sessions.hgetall token (check_count redis ip max_attempts n s).1
            ≡ redis.sessions.hgetall token s)
  check_count-keeps ip code token max_attempts none s = (refl, refl)
  check_count-keeps ip code token max_attempts (some n) s = elim (Bool-cases (n == 1)) [
    | inl first ↦ rw first (
      redis.code_at-expire_attempts code ip attempt_window_seconds s,
      redis.hgetall-expire_attempts token ip attempt_window_seconds s,
    )
    | inr later ↦ rw later (refl, refl)
  ]

  check_login_rate-keeps :
      (ip code token : Text) (max_attempts : ℕ) (s : State redis)
      → (redis.code_at code (check_login_rate redis ip max_attempts s).1 ≡ redis.code_at code s)
        × (redis.sessions.hgetall token (check_login_rate redis ip max_attempts s).1
            ≡ redis.sessions.hgetall token s)
  unfolding check_login_rate
  check_login_rate-keeps ip code token max_attempts s =
      let kept =
        check_count-keeps ip code token max_attempts (redis.incr ip s).0 (redis.incr ip s).1 in
      (kept.0 ∙ redis.code_at-incr code ip s, kept.1 ∙ redis.hgetall-incr token ip s)

  consume_login_code-missing :
      (is_digit : ℕ → Bool) (int_of : Text → Option ℕ) (code : Text) (s : State redis)
      → redis.code_at code s ≡ none
      → (consume_login_code redis is_digit int_of code s).0 ≡ ok none
  unfolding consume_login_code
  consume_login_code-missing is_digit int_of code s missing =
      elim (Bool-cases (is_code is_digit code)) [
        | inl valid ↦ rw (valid, redis.getdel-code_at code s, missing) refl
        | inr invalid ↦ rw invalid refl
      ]

  consume_login_code-found :
      (is_digit : ℕ → Bool) (int_of : Text → Option ℕ) (code raw : Text) (admin_id : ℕ)
      (s : State redis)
      → is_code is_digit code ≡ true
      → redis.code_at code s ≡ some raw
      → int_of raw ≡ some admin_id
      → consume_login_code redis is_digit int_of code s
        ≡ (ok (some admin_id), (redis.getdel code s).1)
  unfolding consume_login_code
  consume_login_code-found is_digit int_of code raw admin_id s valid there parsed =
      rw (valid, redis.getdel-code_at code s, there, admin_of, parsed) refl

  -- Where the code is not there, no login succeeds with it.
  login_submit-missing :
      (is_digit : ℕ → Bool) (int_of : Text → Option ℕ) (str_of : ℕ → Text)
      (ip code token csrf : Text) (max_attempts ttl : ℕ) (s : State redis)
      → redis.code_at code s ≡ none
      → let answer =
          (login_submit redis is_digit int_of str_of ip max_attempts code token csrf ttl s).0 in
        (answer ≡ ok bad_code) ⊎ (answer ≡ ok rate_limited)
  unfolding login_submit consume_login_code
  login_submit-missing is_digit int_of str_of ip code token csrf max_attempts ttl s missing =
      let s' = (check_login_rate redis ip max_attempts s).1 in
      elim (Bool-cases (check_login_rate redis ip max_attempts s).0) [
        | inl allowed ↦ inl (
            rw
              (
                allowed,
                consume_login_code-missing is_digit int_of code s'
                    ((check_login_rate-keeps ip code token max_attempts s).0 ∙ missing),
              )
              refl)
        | inr refused ↦ inr (rw refused refl)
      ]

  -- A login with a code that is there opens a session for its admin and uses the code up.
  login_submit-opens :
      (is_digit : ℕ → Bool) (int_of : Text → Option ℕ) (str_of : ℕ → Text)
      (ip code token csrf : Text) (max_attempts ttl admin_id : ℕ) (s : State redis)
      → is_code is_digit code ≡ true
      → int_of (str_of admin_id) ≡ some admin_id
      → redis.code_at code s ≡ some (str_of admin_id)
      → (check_login_rate redis ip max_attempts s).0 ≡ true
      → let s' = (check_login_rate redis ip max_attempts s).1 in
        login_submit redis is_digit int_of str_of ip max_attempts code token csrf ttl s ≡ (
          ok (logged_in token),
          create_session redis token csrf (str_of admin_id) ttl (redis.getdel code s').1,
        )
  unfolding login_submit consume_login_code
  login_submit-opens is_digit int_of str_of ip code token csrf max_attempts ttl admin_id s valid
        parsed there allowed =
      let s' = (check_login_rate redis ip max_attempts s).1 in
      rw
        (
          allowed,
          consume_login_code-found is_digit int_of code (str_of admin_id) admin_id s' valid
              ((check_login_rate-keeps ip code token max_attempts s).0 ∙ there) parsed,
        )
        refl

  -- What a new session holds.
  create_session-fields :
      (token csrf admin_id : Text) (ttl : ℕ) (s : State redis)
      → redis.sessions.hgetall token s ≡ []
      → redis.sessions.hgetall token (create_session redis token csrf admin_id ttl s)
        ≡ (admin_id_key, admin_id) ∷ (csrf_key, csrf) ∷ []
  unfolding create_session
  create_session-fields token csrf admin_id ttl s fresh =
      redis.hgetall-expire token token ttl _ ∙ redis.hgetall-hset token _ s fresh

  create_session-code_at :
      (code token csrf admin_id : Text) (ttl : ℕ) (s : State redis)
      → redis.code_at code (create_session redis token csrf admin_id ttl s) ≡ redis.code_at code s
  unfolding create_session
  create_session-code_at code token csrf admin_id ttl s =
      redis.code_at-expire code token ttl _ ∙ redis.code_at-hset code token _ s

load_session-opened :
    (redis : Redis) (int_of : Text → Option ℕ) (ttl admin_id : ℕ) (token csrf raw : Text)
    (s : redis.State)
    → redis.hgetall token s ≡ (admin_id_key, raw) ∷ (csrf_key, csrf) ∷ []
    → int_of raw ≡ some admin_id
    → load_session redis int_of ttl token s ≡ (
      some (record { token = token; admin_id = admin_id; csrf = csrf }),
      redis.expire token ttl s,
    )
unfolding load_session text_eq
load_session-opened redis int_of ttl admin_id token csrf raw s held parsed =
    rw (held, session_of, parsed) refl

-- The gate on a request with the token of a new session.
login_required-opened :
    (redis : Redis) (int_of : Text → Option ℕ) (ttl : ℕ) (admins : List Admin) (admin : Admin)
    (token csrf raw : Text) (request : Request) (s : redis.State)
    → redis.hgetall token s ≡ (admin_id_key, raw) ∷ (csrf_key, csrf) ∷ []
    → int_of raw ≡ some admin.id
    → get_by_id admin.id admins ≡ some admin
    → is_empty token ≡ false
    → request.cookie ≡ some token
    → request.is_post ≡ false
    → (login_required redis int_of ttl admins request s).0
      ≡ handled (record { token = token; admin_id = admin.id; csrf = csrf }) admin
unfolding login_required load_session text_eq
login_required-opened redis int_of ttl admins admin token csrf raw request s held parsed row
      nonempty cookie get =
    ground (arith, load_session-opened redis int_of ttl admin.id token csrf raw s held parsed)

-- A code that was issued, of 6 digits as every draw is, and that is still there when it is submitted
-- within the limit of attempts, logs its admin in: where the new token is not empty and not in use,
-- the gate lets a GET request that carries it through as that admin, whose row exists. The code is
-- used up: submitted again it is refused. Python's `int` reads what `str` writes.
pub login_submit-login_required :
    (redis : LoginRedis) (is_digit : ℕ → Bool) (int_of : Text → Option ℕ) (str_of : ℕ → Text)
    (draw : ℕ → Text) (admins : List Admin) (admin : Admin) (request : Request)
    (code token csrf ip : Text) (code_ttl max_attempts ttl : ℕ) (s issued s' : State redis)
    → ((i : ℕ) → is_code is_digit (draw i) ≡ true)
    → int_of (str_of admin.id) ≡ some admin.id
    → issue_login_code redis draw (str_of admin.id) code_ttl s ≡ (some code, issued)
    → redis.code_at code s' ≡ redis.code_at code issued
    → (check_login_rate redis ip max_attempts s').0 ≡ true
    → redis.sessions.hgetall token s' ≡ []
    → get_by_id admin.id admins ≡ some admin
    → is_empty token ≡ false
    → request.cookie ≡ some token
    → request.is_post ≡ false
    → let (answer, left) =
        login_submit redis is_digit int_of str_of ip max_attempts code token csrf ttl s' in
      let again =
        (login_submit redis is_digit int_of str_of ip max_attempts code token csrf ttl left).0 in
      (answer ≡ ok (logged_in token))
      × ((login_required redis.sessions int_of ttl admins request left).0
          ≡ handled (record { token = token; admin_id = admin.id; csrf = csrf }) admin)
      × ((again ≡ ok bad_code) ⊎ (again ≡ ok rate_limited))
unfolding issue_login_code
login_submit-login_required redis is_digit int_of str_of draw admins admin request code token csrf
      ip code_ttl max_attempts ttl s issued s' digits parsed issue there allowed fresh row nonempty
      cookie get =
    let (stored, (n, drawn)) =
      issue_from-stored redis draw (str_of admin.id) code code_ttl 0 5 s issued issue in
    let passed = (check_login_rate redis ip max_attempts s').1 in
    let (same_code, same_session) = check_login_rate-keeps redis ip code token max_attempts s' in
    let opened =
      login_submit-opens redis is_digit int_of str_of ip code token csrf max_attempts ttl admin.id
        s' (subst (λ c. is_code is_digit c ≡ true) (sym drawn) (digits n)) parsed (there ∙ stored)
        allowed in
    let redeemed = (redis.getdel code passed).1 in
    let left = create_session redis token csrf (str_of admin.id) ttl redeemed in
    rw opened (
      refl,
      login_required-opened redis.sessions int_of ttl admins admin token csrf (str_of admin.id)
          request left
          (create_session-fields redis token csrf (str_of admin.id) ttl redeemed
            (redis.hgetall-getdel token code passed ∙ same_session ∙ fresh))
          parsed row nonempty cookie get,
      login_submit-missing redis is_digit int_of str_of ip code token csrf max_attempts ttl left (
          create_session-code_at redis code token csrf (str_of admin.id) ttl redeemed
          ∙ redis.code_at-getdel code passed),
    )
