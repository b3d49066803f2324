-- ===== src/Examples/Updates.antt =====
-- The middlewares on the small database, with a Redis whose every hit is counted from one.
use testify.Common.{ℕ, Bool, true, false, none, some, ◌≡◌, refl, ◌+◌, find, not, []}
use testify.Effects.{ok, err, system_error}
use testify.Users.Repository.{get_by_telegram_id}
use testify.Users.Service.{get_or_create}
use testify.Bot.Middlewares.{
  Counters, Sender, Site, Passage, throttled, Handler, handle_update, user_loader, reply_banned,
  throttle, count_hit,
}
use testify.Bot.Middlewares.Access.{Access, handle_update-Access}
use testify.Examples.Data.{database}

-- The number of hits of the second, and whether a ban reply was sent.
abbrev counters : Counters
counters = record {
  State = ℕ × Bool;
  incr = λ key s. (some (s.0 + 1), (s.0 + 1, s.1));
  expire = λ key ttl s. (true, s);
  set_nx = λ key ttl s. (some (not s.1), (s.0, true));
}

abbrev sender_of : ℕ → Sender
sender_of telegram_id = record { telegram_id = telegram_id; username = none }

abbrev site : ℕ → Site counters.State
site hits = record { db = database; redis = (hits, false) }

-- a handler that empties the table and then raises
abbrev failing : Handler counters ℕ
failing user s = (err system_error, record s { db = record s.db { users = [] } })

handle_update-Access_example :
    Access counters failing
      (sender_of 701)
      (site 0)
      (handle_update counters failing 11 (some (sender_of 701)) (site 0))
handle_update-Access_example = handle_update-Access counters failing (sender_of 701) (site 0) 11

-- The student's update is rolled back, the eleventh of a second is dropped, and the outcast is told
-- of his ban once.
rolled_back :
    handle_update counters failing 11 (some (sender_of 701)) (site 0) ≡ (err system_error, site 1)
unfolding handle_update get_or_create get_by_telegram_id find throttle count_hit user_loader
rolled_back = refl

dropped : (handle_update counters failing 11 (some (sender_of 701)) (site 10)).0 ≡ ok throttled
unfolding handle_update get_or_create get_by_telegram_id find throttle count_hit user_loader
dropped = refl

told :
    handle_update counters failing 11 (some (sender_of 702)) (site 0)
    ≡ (ok (Passage.banned true), record { db = database; redis = (0, true) })
unfolding handle_update get_or_create get_by_telegram_id find throttle count_hit user_loader
    reply_banned
told = refl
