-- ===== src/Notifications/Tests.antt =====
-- Runs of the email quota, and an application of each theorem on them.
use feedpulse.Base.{ℕ, ◌≤◌, ◌≡◌, refl, Bool, true, false, none, some, ◌+◌}
use feedpulse.Notifications.Counter.{pos, Key, Redis, incr, decr, value_of}
use feedpulse.Notifications.Quota.{Command, incr_counter}
use feedpulse.Notifications.Contention.{
  Day, plus_ℤ, Reach, here, next, grants, refuses, lets_through, gives_back, releases_unearned,
  quota_never_exceeded,
}

abbrev key : Key
key = record { tenant_id = "acme"; utc_day = 20000 }

abbrev sent : ℕ → Redis
sent n k = some (record { value = pos n; ttl_seconds = none })

abbrev no_incr : Command → Bool
no_incr incr_counter = true
no_incr _ = false

-- A limit of one: a first caller is granted, a second is over the limit and gives back.
abbrev day_of : Redis → ℕ → ℕ → Day
day_of redis granted over = record {
  redis = redis;
  granted = granted;
  over = over;
  lost = 0;
  uncounted = 0;
  unearned = 0;
}

abbrev morning : Day
morning = day_of (sent 0) 0 0

abbrev one_granted : Day
one_granted = day_of (incr key morning.redis).0 1 0

abbrev one_over : Day
one_over = day_of (incr key one_granted.redis).0 1 1

abbrev given_back : Day
given_back = day_of (decr key one_over.redis).0 1 0

contended : Reach 1 key morning given_back
unfolding incr
contended = next (next (next here (grants refl)) (refuses refl)) (gives_back 0 refl)

-- A caller whose INCR threw is let through and released: the next reservation is the second one.
abbrev let_through : Day
let_through = record one_granted { uncounted = 1 }

abbrev released : Day
released = record let_through { redis = (decr key let_through.redis).0; unearned = 1 }

abbrev two_granted : Day
two_granted = record released { redis = (incr key released.redis).0; granted = 2 }

over_limit : Reach 1 key morning two_granted
unfolding incr decr
over_limit =
    next (next (next (next here (grants refl)) lets_through) releases_unearned) (grants refl)

quota_never_exceeded_example :
    (two_granted.granted ≤ 1 + two_granted.unearned)
    × (plus_ℤ two_granted.unearned (value_of (two_granted.redis key))
        ≡ pos (two_granted.granted + two_granted.over + two_granted.lost))
quota_never_exceeded_example = quota_never_exceeded 1 key refl refl over_limit
