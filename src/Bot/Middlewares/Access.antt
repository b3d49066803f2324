-- ===== src/Bot/Middlewares/Access.antt =====
-- Which updates reach a handler, and with what.
use testify.Common.{
  ℕ, Bool, true, false, Option, some, ◌≡◌, ◌⊎◌, inl, inr, refl, arith, ◌==◌, ltb, find-insert,
  find-update, Option-cases, Bool-cases, ◌&&◌, insert, Text, ap, subst, sym, ◌∙◌, none,
}
use testify.Effects.{Error, Result, ok, err, Result-cases}
use testify.Models.{User, Database, is_banned}
use testify.Users.Repository.{get_by_telegram_id, new_user, clear_bot_blocked}
use testify.Users.Service.{get_or_create}
use testify.Bot.Middlewares.{
  Counters, Sender, Passage, banned, throttled, handled, Site, max_per_second, Handler, count_hit,
  clear_stale, close_session, call, throttle, handle_update, user_loader, reply_banned,
  ban_reply_key, ban_reply_ttl_seconds, replies,
}

-- The user of an update: the row of the sender, not banned and not marked as unreachable.
pub record IsAdmitted (telegram_id : ℕ) (db : Database) (user : User) : Type 0 where
  pub found : get_by_telegram_id telegram_id db ≡ some user
  pub unbanned : is_banned user.status ≡ false
  pub reachable : user.bot_blocked ≡ false

-- A count over the limit; where Redis fails there is no count.
abbrev is_over : Option ℕ → Bool
is_over none = false
is_over (some hits) = ltb max_per_second hits

-- How an update may end: for a banned user without a handler or a write; over the limit without a
-- handler; with the handler's return, committed; or with its exception, rolled back. The handler runs
-- only where the limiter gave no count over the limit.
pub data Access (counters : Counters) {A : Type 0} (handler : Handler counters A) (sender : Sender)
    (s : Site counters.State) : Result (Passage A) × Site counters.State → Type 0 where
  refused :
      (user : User) (told : Bool) (redis : counters.State)
      → get_by_telegram_id sender.telegram_id s.db ≡ some user
      → is_banned user.status ≡ true
      → Access counters handler sender s (ok (banned told), record s { redis = redis })
  limited :
      (user : User) (hits : ℕ) (loaded : Site counters.State)
      → IsAdmitted sender.telegram_id loaded.db user
      → (count_hit counters sender.telegram_id s.redis).0 ≡ some hits
      → ltb max_per_second hits ≡ true
      → Access counters handler sender s (ok throttled, loaded)
  ran :
      (user : User) (a : A) (loaded left : Site counters.State)
      → IsAdmitted sender.telegram_id loaded.db user
      → is_over (count_hit counters sender.telegram_id s.redis).0 ≡ false
      → handler (some user) loaded ≡ (ok a, left)
      → Access counters handler sender s (ok (handled a), left)
  raised :
      (user : User) (e : Error) (loaded left : Site counters.State)
      → IsAdmitted sender.telegram_id loaded.db user
      → is_over (count_hit counters sender.telegram_id s.redis).0 ≡ false
      → handler (some user) loaded ≡ (err e, left)
      → Access counters handler sender s (err e, record left { db = s.db })

get_or_create-found :
    (id telegram_id : ℕ) (username : Option Text) (db : Database)
    → (user : User) × (db' : Database) × (get_or_create id telegram_id username db ≡ (ok user, db'))
      × (get_by_telegram_id telegram_id db' ≡ some user)
      × ((db' ≡ db) ⊎ (is_banned user.status ≡ false) × (user.bot_blocked ≡ false))
unfolding get_or_create get_by_telegram_id
get_or_create-found id telegram_id username db =
    elim (Option-cases (get_by_telegram_id telegram_id db)) [
      | inr (user, found) ↦ (user, db, rw (get_or_create, found) refl, found, inl refl)
      | inl missing ↦
          let user = new_user id telegram_id username in
          let db' : Database = record db { users = insert user db.users } in
          (
            user,
            db',
            rw (get_or_create, missing) refl,
            rw (find-insert (λ (u : User). u.telegram_id == telegram_id) user db.users missing)
                (ground arith),
            inr (refl, refl),
          )
    ]

get_by_telegram_id-clear_bot_blocked :
    (telegram_id : ℕ) (db : Database) (user : User)
    → get_by_telegram_id telegram_id db ≡ some user
    → user.bot_blocked ≡ true
    → get_by_telegram_id telegram_id (clear_bot_blocked user.id db)
      ≡ some (record user { bot_blocked = false })
unfolding get_by_telegram_id clear_bot_blocked
get_by_telegram_id-clear_bot_blocked telegram_id db user found blocked = ground (
  arith,
  find-update (λ (u : User). u.id == user.id && u.bot_blocked) (λ u. u.telegram_id == telegram_id)
      (λ u. record u { bot_blocked = false }) db.users (λ u. refl),
)

clear_stale-IsAdmitted :
    (counters : Counters) (telegram_id : ℕ) (user : User) (s : Site counters.State)
    → get_by_telegram_id telegram_id s.db ≡ some user
    → is_banned user.status ≡ false
    → (cleared : User) × (db : Database) × (clear_stale counters user s
        ≡ (ok cleared, record s { db = db }))
      × IsAdmitted telegram_id db cleared
clear_stale-IsAdmitted counters telegram_id user s found unbanned =
    elim (Bool-cases user.bot_blocked) [
      | inl blocked ↦ (
        record user { bot_blocked = false },
        clear_bot_blocked user.id s.db,
        rw blocked refl,
        record {
          found = get_by_telegram_id-clear_bot_blocked telegram_id s.db user found blocked;
          unbanned = unbanned;
          reachable = refl;
        },
      )
      | inr clear ↦ (
        user,
        s.db,
        rw clear refl,
        record { found = found; unbanned = unbanned; reachable = clear },
      )
    ]

module _ (counters : Counters) {A : Type 0} (handler : Handler counters A) (sender : Sender)
    (s : Site counters.State) where
  close_session-ok :
      (user : User) (a : A) (loaded left : Site counters.State)
      → handler (some user) loaded ≡ (ok a, left)
      → close_session counters s (call counters handler (some user) loaded) ≡ (ok (handled a), left)
  close_session-ok user a loaded left ended = ground arith

  close_session-err :
      (user : User) (e : Error) (loaded left : Site counters.State)
      → handler (some user) loaded ≡ (err e, left)
      → close_session counters s (call counters handler (some user) loaded)
        ≡ (err e, record left { db = s.db })
  close_session-err user e loaded left ended = ground arith

  -- The handler's own end.
  Access-call :
      (user : User) (loaded : Site counters.State)
      → IsAdmitted sender.telegram_id loaded.db user
      → is_over (count_hit counters sender.telegram_id s.redis).0 ≡ false
      → Access counters handler sender s
          (close_session counters s (call counters handler (some user) loaded))
  Access-call user loaded h free =
      let left = (handler (some user) loaded).1 in
      elim (Result-cases (handler (some user) loaded).0) [
        | inl (a, e) ↦
            let ended : handler (some user) loaded ≡ (ok a, left) = ap (λ r. (r, left)) e in
            subst (Access counters handler sender s)
              (sym (close_session-ok user a loaded left ended))
              (ran user a loaded left h free ended)
        | inr (x, e) ↦
            let ended : handler (some user) loaded ≡ (err x, left) = ap (λ r. (r, left)) e in
            subst (Access counters handler sender s)
              (sym (close_session-err user x loaded left ended))
              (raised user x loaded left h free ended)
      ]

  Access-throttle :
      (user : User) (db : Database)
      → IsAdmitted sender.telegram_id db user
      → Access counters handler sender s (
          close_session counters s
            (throttle counters handler (some sender) (some user) (record s { db = db })))
  unfolding throttle
  Access-throttle user db h =
      let loaded : Site counters.State = record {
        db = db;
        redis = (count_hit counters sender.telegram_id s.redis).1;
      } in
      elim (Option-cases (count_hit counters sender.telegram_id s.redis).0) [
        | inl failed ↦ rw failed (Access-call user loaded h (rw failed refl))
        | inr (n, counted) ↦ rw counted (elim (Bool-cases (ltb max_per_second n)) [
          | inl over ↦ rw over (limited user n loaded h counted over)
          | inr within ↦ rw within (Access-call user loaded h (rw (counted, within) refl))
        ])
      ]

  handle_update-refused :
      (id : ℕ) (user : User)
      → get_or_create id sender.telegram_id sender.username s.db ≡ (ok user, s.db)
      → is_banned user.status ≡ true
      → let (first, redis) =
          counters.set_nx (ban_reply_key sender.telegram_id) ban_reply_ttl_seconds s.redis in
        handle_update counters handler id (some sender) s
        ≡ (ok (banned (replies first)), record s { redis = redis })
  unfolding handle_update user_loader reply_banned
  handle_update-refused id user got is_out = ground arith

  handle_update-admitted :
      (id : ℕ) (user cleared : User) (db db' : Database)
      → get_or_create id sender.telegram_id sender.username s.db ≡ (ok user, db)
      → is_banned user.status ≡ false
      → clear_stale counters user (record s { db = db }) ≡ (ok cleared, record s { db = db' })
      → handle_update counters handler id (some sender) s
        ≡ close_session counters s
            (throttle counters handler (some sender) (some cleared) (record s { db = db' }))
  unfolding handle_update user_loader
  handle_update-admitted id user cleared db db' got unbanned clear = ground arith

  -- An update with a sender ends in one of four ways. The user's row is banned: no handler runs and
  -- the database stays. The limiter counted more than 10 of his updates: no handler runs. The
  -- handler gets the sender's row, not banned and no longer marked as unreachable, and returns: what
  -- it left is committed. It gets that row and raises: the database is as it was before the update.
  -- In the last two ways the limiter counted at most 10 or Redis gave no count.
  pub handle_update-Access :
      (id : ℕ)
      → Access counters handler sender s (handle_update counters handler id (some sender) s)
  handle_update-Access id =
      let (user, db, got, found, old) =
        get_or_create-found id sender.telegram_id sender.username s.db in
      elim (Bool-cases (is_banned user.status)) [
        | inl is_out ↦ elim old [
          | inl same ↦
              let got' : get_or_create id sender.telegram_id sender.username s.db
                  ≡ (ok user, s.db) =
                cc (got, same) in
              subst (Access counters handler sender s)
                (sym (handle_update-refused id user got' is_out))
                (refused user _ _ (ap (get_by_telegram_id sender.telegram_id) (sym same) ∙ found)
                  is_out)
          | inr (unbanned, _) ↦ cc
        ]
        | inr unbanned ↦
            let (cleared, db', clear, h) =
              clear_stale-IsAdmitted counters sender.telegram_id user (record s { db = db }) found
                unbanned in
            subst (Access counters handler sender s)
              (sym (handle_update-admitted id user cleared db db' got unbanned clear))
              (Access-throttle cleared db' h)
      ]
