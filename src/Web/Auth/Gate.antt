-- ===== src/Web/Auth/Gate.antt =====
-- When the gate lets a request through.
use testify.Common.{
  ℕ, Bool, true, false, Option, none, some, Text, List, [], ◌∷◌, ◌≡◌, ◌&&◌, not, refl, arith, ap,
  if◌then◌else◌, some-injective, subst,
}
use testify.Web.Auth.{
  Redis, Admin, WebSession, Request, Gated, handled, expired_json, login_redirect, csrf_json,
  csrf_forbidden, login_required, load_session, session_of_cookie, pass_session, pass_admin,
  load_fields, loaded, session_of, submitted, is_csrf, field_of, admin_id_key, csrf_key, get_by_id,
  session_with,
}

-- The session and the admin of a handler's call, or the given ones.
abbrev session_in : WebSession → Gated → WebSession
session_in session (handled session' admin) = session'
session_in session _ = session

abbrev admin_in : Admin → Gated → Admin
admin_in admin (handled session admin') = admin'
admin_in admin _ = admin

handled_only :
    (refused json : Bool) (session session' : WebSession) (admin admin' : Admin)
    → (if refused then (if json then csrf_json else csrf_forbidden) else handled session admin)
      ≡ handled session' admin'
    → (refused ≡ false) × ((session ≡ session') × (admin ≡ admin'))
handled_only true true session session' admin admin' h = cc
handled_only true false session session' admin admin' h = cc
handled_only false json session session' admin admin' h =
    (refl, (ap (session_in session) h, ap (admin_in admin) h))

no_handler :
    (json : Bool) (session : WebSession) (admin : Admin)
    → (if json then expired_json else login_redirect) ≡ handled session admin
    → ⊥
no_handler true session admin h = cc
no_handler false session admin h = cc

post_needs : (post csrf : Bool) → (post && not csrf) ≡ false → post ≡ true → csrf ≡ true
post_needs post true h e = refl
post_needs true false h e = ground arith
post_needs false false h e = ground arith

session_with-some :
    (token csrf : Text) (id : Option ℕ) (session : WebSession)
    → session_with token csrf id ≡ some session
    → (token ≡ session.token) × ((csrf ≡ session.csrf) × (id ≡ some session.admin_id))
session_with-some token csrf none session h = cc
session_with-some token csrf (some id) session h =
    let same = some-injective _ _ h in
    (ap (λ s. s.token) same, (ap (λ s. s.csrf) same, ap (λ s. some s.admin_id) same))

module _ (redis : Redis) (int_of : Text → Option ℕ) where
  open redis use {State}

  -- The request came with the token of a session that Redis holds, of an admin who is still there,
  -- and a POST with the CSRF token of that session.
  pub record IsAllowed (admins : List Admin) (request : Request) (s : State) (session : WebSession)
      (admin : Admin) : Type 0 where
    pub cookie : request.cookie ≡ some session.token
    pub csrf : field_of csrf_key (redis.hgetall session.token s) ≡ some session.csrf
    pub id :
        (value : Text) × ((field_of admin_id_key (redis.hgetall session.token s) ≡ some value)
          × (int_of value ≡ some session.admin_id))
    pub admin_row : get_by_id session.admin_id admins ≡ some admin
    pub post : request.is_post ≡ true → is_csrf (submitted request) session.csrf ≡ true

  session_of-fields :
      (token : Text) (id csrf : Option Text) (session : WebSession)
      → session_of redis int_of token id csrf ≡ some session
      → (token ≡ session.token)
        × ((csrf ≡ some session.csrf)
            × ((value : Text) × ((id ≡ some value) × (int_of value ≡ some session.admin_id))))
  session_of-fields token none csrf session h = cc
  session_of-fields token (some id) none session h = cc
  session_of-fields token (some id) (some csrf) session h =
      let parts = session_with-some token csrf (int_of id) session h in
      (parts.0, (ap some parts.1.0, (id, (refl, parts.1.1))))

  loaded-some :
      (ttl : ℕ) (token : Text) (s : State) (o : Option WebSession) (session : WebSession)
      → (loaded redis int_of ttl token s o).0 ≡ some session
      → o ≡ some session
  loaded-some ttl token s none session h = h
  loaded-some ttl token s (some session') session h = h

  load_fields-some :
      (ttl : ℕ) (token : Text) (s : State) (fields : List (Text × Text)) (session : WebSession)
      → (load_fields redis int_of ttl token s fields).0 ≡ some session
      → (token ≡ session.token)
        × ((field_of csrf_key fields ≡ some session.csrf)
            × ((value : Text) × ((field_of admin_id_key fields ≡ some value)
                  × (int_of value ≡ some session.admin_id))))
  load_fields-some ttl token s [] session h = cc
  load_fields-some ttl token s (f ∷ fields) session h =
      session_of-fields token (field_of admin_id_key (f ∷ fields)) (field_of csrf_key (f ∷ fields))
        session (loaded-some ttl token s _ session h)

  cookie-some :
      (ttl : ℕ) (cookie : Option Text) (s : State) (session : WebSession)
      → (session_of_cookie redis int_of ttl cookie s).0 ≡ some session
      → (cookie ≡ some session.token)
        × ((field_of csrf_key (redis.hgetall session.token s) ≡ some session.csrf)
            × ((value : Text) × ((field_of admin_id_key (redis.hgetall session.token s)
                    ≡ some value)
                  × (int_of value ≡ some session.admin_id))))
  unfolding load_session
  cookie-some ttl none s session h = cc
  cookie-some ttl (some []) s session h = cc
  cookie-some ttl (some (c ∷ token)) s session h =
      let (same, parts) =
        load_fields-some ttl (c ∷ token) s (redis.hgetall (c ∷ token) s) session h in
      (
        ap some same,
        subst
            (λ t.
              (field_of csrf_key (redis.hgetall t s) ≡ some session.csrf)
              × ((value : Text) × ((field_of admin_id_key (redis.hgetall t s) ≡ some value)
                    × (int_of value ≡ some session.admin_id))))
            same parts,
      )

  pass_admin-handled :
      (request : Request) (session session' : WebSession) (found : Option Admin) (admin : Admin)
      (s : State)
      → (pass_admin redis int_of request session found s).0 ≡ handled session' admin
      → ((session ≡ session') × (found ≡ some admin))
        × (request.is_post ≡ true → is_csrf (submitted request) session.csrf ≡ true)
  pass_admin-handled request session session' none admin s h = cc
  pass_admin-handled request session session' (some found) admin s h =
      let refused = request.is_post && not (is_csrf (submitted request) session.csrf) in
      let (passed, (same, same')) =
        handled_only refused request.wants_json session session' found admin h in
      (
        (same, ap some same'),
        post_needs request.is_post (is_csrf (submitted request) session.csrf) passed,
      )

  pass_session-handled :
      (admins : List Admin) (request : Request) (loaded : Option WebSession × State)
      (session : WebSession) (admin : Admin)
      → (pass_session redis int_of admins request loaded).0 ≡ handled session admin
      → ((loaded.0 ≡ some session) × (get_by_id session.admin_id admins ≡ some admin))
        × (request.is_post ≡ true → is_csrf (submitted request) session.csrf ≡ true)
  pass_session-handled admins request (none, s) session admin h =
      absurd (no_handler request.wants_json session admin h)
  pass_session-handled admins request (some session', s) session admin h =
      let ((same, found), post) =
        pass_admin-handled request session' session (get_by_id session'.admin_id admins) admin s
          h in
      (
        (ap some same, subst (λ x. get_by_id x.admin_id admins ≡ some admin) same found),
        subst (λ x. request.is_post ≡ true → is_csrf (submitted request) x.csrf ≡ true) same post,
      )

  -- The gate lets a handler run only where the cookie is the token of a session that Redis holds, the
  -- session is of the admin that the handler gets, who is still in the table, and a POST submits the
  -- session's CSRF token.
  pub login_required-IsAllowed :
      (ttl : ℕ) (admins : List Admin) (request : Request) (s : State) (session : WebSession)
      (admin : Admin)
      → (login_required redis int_of ttl admins request s).0 ≡ handled session admin
      → IsAllowed admins request s session admin
  unfolding login_required
  login_required-IsAllowed ttl admins request s session admin h =
      let ((found, row), post) =
        pass_session-handled admins request (session_of_cookie redis int_of ttl request.cookie s)
          session admin h in
      let parts = cookie-some ttl request.cookie s session found in
      record { cookie = parts.0; csrf = parts.1.0; id = parts.1.1; admin_row = row; post = post }
