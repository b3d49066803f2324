-- ===== src/Bot/Middlewares.antt =====
-- The middlewares of app/bot/middlewares in the order of app/bot/bot.py: the session of
-- db_session.py, the user of user_loader.py, the limit of throttle.py, then the handler.
pub mod Access
use testify.Users.Repository.{clear_bot_blocked}
use testify.Common.{
  ℕ, Bool, true, false, Option, none, some, Text, ◌==◌, ltb, if◌then◌else◌, update, ◌&&◌,
}
use testify.Effects.{Result, ok, err, Action, pure, ◌>>=◌, ◌>>◌}
use testify.Models.{User, Database, is_banned}
use testify.Users.Service.{get_or_create}

-- `throttle:<id>` and `ban_reply:<id>`
pub data Key : Type 0 where
  throttle_key ban_reply_key : ℕ → Key

-- redis.asyncio; `none`, and false for `expire`, is a `RedisError`. `set_nx` is `set(…, nx=True, ex=…)`, true where it set.
pub record Counters : Type 1 where
  pub State : Type 0
  pub incr : Key → State → Option ℕ × State
  pub expire : Key → ℕ → State → Bool × State
  pub set_nx : Key → ℕ → State → Option Bool × State

-- What the middlewares read of an update: the sender's id and username.
pub record Sender : Type 0 where
  pub telegram_id : ℕ
  pub username : Option Text

-- How an update ends: without a handler, for a banned user, with whether he is told; or for a user
-- over the limit; or with what the handler returned.
pub data Passage (A : Type 0) : Type 0 where
  banned : Bool → Passage A
  throttled : Passage A
  handled : A → Passage A

-- The session's database, and Redis.
pub record Site (Redis : Type 0) : Type 0 where
  pub db : Database
  pub redis : Redis

-- `_BAN_REPLY_TTL_SECONDS`, and `max_per_second` as app/bot/bot.py sets it.
abbrev pub ban_reply_ttl_seconds : ℕ
ban_reply_ttl_seconds = 300

abbrev pub max_per_second : ℕ
max_per_second = 10

-- `_maybe_reply_banned`: whether it tries to reply.
abbrev pub replies : Option Bool → Bool
replies none = true
replies (some first) = first

module _ (counters : Counters) where
  open counters use {State}

  -- What a handler gets: the user, where the update has a sender.
  abbrev pub Handler : Type 0 → Type 0
  Handler A = Option User → Action (Site State) A

  -- `INCR` with the `EXPIRE` of the first hit; `none` is a `RedisError` of either.
  abbrev pub expire_first : Key → Option ℕ × State → Option ℕ × State
  expire_first key (none, r) = (none, r)
  expire_first key (some n, r) =
      if n == 1
      then (let (done, r') = counters.expire key 1 r in (if done then some n else none, r'))
      else (some n, r)

  unfoldable pub count_hit : ℕ → State → Option ℕ × State
  count_hit telegram_id r =
      expire_first (throttle_key telegram_id) (counters.incr (throttle_key telegram_id) r)

  -- `user.bot_blocked = False` on the row that was read, and in the table.
  abbrev pub clear_stale : User → Action (Site State) User
  clear_stale user s =
      if user.bot_blocked
      then (
        ok (record user { bot_blocked = false }),
        record s { db = clear_bot_blocked user.id s.db },
      )
      else (ok user, s)

  abbrev pub load : ℕ → Sender → Action (Site State) User
  load id sender s =
      let (r, db) = get_or_create id sender.telegram_id sender.username s.db in
      (r, record s { db = db })

  module _ {A : Type 0} where
    abbrev pub call : Handler A → Option User → Action (Site State) (Passage A)
    call handler user = handler user >>= λ a. pure (handled a)

    -- A limiter whose Redis fails lets the update through.
    abbrev pub pass_count : Handler A → Option User → Option ℕ → Action (Site State) (Passage A)
    pass_count handler user none = call handler user
    pass_count handler user (some n) =
        if ltb max_per_second n then pure throttled else call handler user

    -- `ThrottleMiddleware.__call__`
    unfoldable pub throttle :
        Handler A → Option Sender → Option User → Action (Site State) (Passage A)
    unfolding count_hit
    throttle handler none user s = call handler user s
    throttle handler (some sender) user s =
        let (n, r) = count_hit sender.telegram_id s.redis in
        pass_count handler user n (record s { redis = r })

    unfoldable pub reply_banned : ℕ → Action (Site State) (Passage A)
    reply_banned telegram_id s =
        let (first, r) =
          counters.set_nx (ban_reply_key telegram_id) ban_reply_ttl_seconds s.redis in
        (ok (banned (replies first)), record s { redis = r })

    -- `UserLoaderMiddleware.__call__`; `id` is the id of the row that may be inserted.
    unfoldable pub user_loader : Handler A → ℕ → Option Sender → Action (Site State) (Passage A)
    unfolding throttle reply_banned
    user_loader handler id none = throttle handler none none
    user_loader handler id (some sender) = do
      user ← load id sender
      (if is_banned user.status
          then reply_banned sender.telegram_id
          else (clear_stale user >>= λ cleared. throttle handler (some sender) (some cleared)))

    -- The end of a session: a raise rolls the database back, Redis stays.
    abbrev pub close_session :
        Site State → Result (Passage A) × Site State → Result (Passage A) × Site State
    close_session s (ok a, left) = (ok a, left)
    close_session s (err e, left) = (err e, record left { db = s.db })

    -- `DbSessionMiddleware.__call__`
    unfoldable pub handle_update : Handler A → ℕ → Option Sender → Action (Site State) (Passage A)
    unfolding user_loader
    handle_update handler id sender s = close_session s (user_loader handler id sender s)
