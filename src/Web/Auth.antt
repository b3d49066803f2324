-- ===== src/Web/Auth.antt =====
-- The session gate of app/web/auth.py. Redis is three of its operations on a state of its own, and
-- `int_of` is Python's `int` of a text, with `none` for a `ValueError`.
pub mod Gate
use testify.Common.{
  ℕ, Bool, true, false, Option, none, some, Text, text_eq, List, [], ◌∷◌, ◌==◌, ◌&&◌, not, find,
  if◌then◌else◌,
}
use testify.Utils.Strip.{is_empty}

-- app/models/admin.py; the other columns are not read.
pub record Admin : Type 0 where
  pub id : ℕ
  pub telegram_id : ℕ

-- `AdminRepository.get_by_id`
abbrev pub get_by_id : ℕ → List Admin → Option Admin
get_by_id admin_id admins = find (λ a. a.id == admin_id) admins

-- redis.asyncio, on the keys of the sessions, which the tokens stand for.
pub record Redis : Type 1 where
  pub State : Type 0
  pub hgetall : Text → State → List (Text × Text)
  pub delete : Text → State → State
  pub expire : Text → ℕ → State → State

-- `WebSession`
pub record WebSession : Type 0 where
  pub token : Text
  pub admin_id : ℕ
  pub csrf : Text

-- `decoded[key]`, with `none` for a `KeyError`.
abbrev pub field_of : Text → List (Text × Text) → Option Text
field_of key [] = none
field_of key ((k, value) ∷ fields) = if text_eq k key then some value else field_of key fields

-- "admin_id"
abbrev pub admin_id_key : Text
admin_id_key = b'a' ∷ b'd' ∷ b'm' ∷ b'i' ∷ b'n' ∷ b'_' ∷ b'i' ∷ b'd' ∷ []

-- "csrf"
abbrev pub csrf_key : Text
csrf_key = b'c' ∷ b's' ∷ b'r' ∷ b'f' ∷ []

-- What the gate reads of a request.
pub record Request : Type 0 where
  pub cookie : Option Text
  pub is_post : Bool
  pub is_multipart : Bool
  pub csrf_header : Option Text
  pub csrf_form : Option Text
  pub wants_json : Bool

-- How the wrapper ends: an answer of its own, or the handler with the session and the admin.
pub data Gated : Type 0 where
  expired_json login_redirect csrf_json csrf_forbidden : Gated
  handled : WebSession → Admin → Gated

abbrev pub submitted : Request → Option Text
submitted request = if request.is_multipart then request.csrf_header else request.csrf_form

-- `submitted and hmac.compare_digest(submitted, session.csrf)`
abbrev pub is_csrf : Option Text → Text → Bool
is_csrf none csrf = false
is_csrf (some token) csrf = not (is_empty token) && text_eq token csrf

abbrev pub pass_csrf : Request → WebSession → Admin → Gated
pass_csrf request session admin =
    if request.is_post && not (is_csrf (submitted request) session.csrf)
    then (if request.wants_json then csrf_json else csrf_forbidden)
    else handled session admin

-- The session with an id that `int` read.
abbrev pub session_with : Text → Text → Option ℕ → Option WebSession
session_with token csrf none = none
session_with token csrf (some id) = some (record { token = token; admin_id = id; csrf = csrf })

module _ (redis : Redis) (int_of : Text → Option ℕ) where
  open redis use {State}

  abbrev pub session_of : Text → Option Text → Option Text → Option WebSession
  session_of token (some admin_id) (some csrf) = session_with token csrf (int_of admin_id)
  session_of token _ _ = none

  abbrev pub loaded : ℕ → Text → State → Option WebSession → Option WebSession × State
  loaded ttl token s none = (none, redis.delete token s)
  loaded ttl token s (some session) = (some session, redis.expire token ttl s)

  abbrev pub load_fields : ℕ → Text → State → List (Text × Text) → Option WebSession × State
  load_fields ttl token s [] = (none, s)
  load_fields ttl token s (f ∷ fields) =
      loaded ttl token s
        (session_of token (field_of admin_id_key (f ∷ fields)) (field_of csrf_key (f ∷ fields)))

  unfoldable pub load_session : ℕ → Text → State → Option WebSession × State
  load_session ttl token s = load_fields ttl token s (redis.hgetall token s)

  -- A missing cookie and an empty one have no session.
  abbrev pub session_of_cookie : ℕ → Option Text → State → Option WebSession × State
  session_of_cookie ttl none s = (none, s)
  session_of_cookie ttl (some token) s =
      if is_empty token then (none, s) else load_session ttl token s

  abbrev pub pass_admin : Request → WebSession → Option Admin → State → Gated × State
  pass_admin request session none s = (login_redirect, redis.delete session.token s)
  pass_admin request session (some admin) s = (pass_csrf request session admin, s)

  abbrev pub pass_session : List Admin → Request → Option WebSession × State → Gated × State
  pass_session admins request (none, s) =
      (if request.wants_json then expired_json else login_redirect, s)
  pass_session admins request (some session, s) =
      pass_admin request session (get_by_id session.admin_id admins) s

  -- `login_required` up to the call of the handler
  unfoldable pub login_required : ℕ → List Admin → Request → State → Gated × State
  unfolding load_session
  login_required ttl admins request s =
      pass_session admins request (session_of_cookie ttl request.cookie s)
