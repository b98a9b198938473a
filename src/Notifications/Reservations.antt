-- ===== src/Notifications/Reservations.antt =====
-- A call of `reserve` as a run of the steps of a day, whichever Redis commands throw.
use feedpulse.Base.{ℕ, suc, ◌+◌, ◌≡◌, Bool, if◌then◌else◌}
use feedpulse.Notifications.Counter.{ℤ, Key, Redis, incr}
use feedpulse.Notifications.Quota.{Command, EmailQuotaDecision}
use feedpulse.Notifications.Contention.{Day, Reach}

module _ (limit : ℕ) (key : Key) where
  -- A run from the day that ends with a store and with a decision: it lets one send more through if
  -- the decision allows it and none otherwise, and leaves no give-back open.
  pub record Ends (d : Day) (t : Redis × EmailQuotaDecision) : Type 0 where
    pub day : Day
    pub run : Reach limit key d day
    pub redis_eq : day.redis ≡ t.0
    pub over_eq : day.over ≡ d.over
    pub unearned_eq : day.unearned ≡ d.unearned
    pub sends :
        day.granted + day.uncounted ≡ d.granted + d.uncounted + (if t.1.allowed then 1 else 0)

  module _ (fails : Command → Bool) (d : Day) where
    abbrev taken : Redis × ℤ
    taken = incr key d.redis

    abbrev counted_day : Day
    counted_day = record d { redis = taken.0; granted = suc d.granted }
