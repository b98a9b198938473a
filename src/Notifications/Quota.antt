-- ===== src/Notifications/Quota.antt =====
-- `EmailRateLimitService` of modules/notifications/infrastructure/email-rate-limit.service.ts. Each
-- Redis command either answers or throws; `fails` tells which throws in this call. A limit of zero or
-- less is 0.
use feedpulse.Base.{ℕ, ◌*◌, Bool, true, false, ◌&&◌, leb, if◌then◌else◌}
use feedpulse.Notifications.Counter.{
  ℤ, pos, negsuc, exceeds, is_nonpositive, is_one, Key, Redis, incr, decr, expire, value_of,
}

abbrev pub counter_ttl_seconds : ℕ
counter_ttl_seconds = 25 * 60 * 60

abbrev pub default_resend_daily_limit : ℕ
default_resend_daily_limit = 100

pub record EmailQuotaDecision : Type 0 where
  pub allowed : Bool
  pub limit : ℕ
  pub used : ℤ
  pub degraded : Bool

-- The commands of one call, in the order in which they can run.
pub data Command : Type 0 where
  incr_counter expire_new decr_counter expire_low read_counter : Command

-- A step that may throw: the store as the commands before it left it, and whether it threw.
abbrev pub Attempt : Type 0
Attempt = Redis × Bool

-- `giveBack`.
unfoldable pub give_back : (Command → Bool) → Key → Redis → Attempt
give_back fails key redis =
    let (redis', remaining) = decr key redis in
    if fails decr_counter
    then (redis, true)
    else if is_nonpositive remaining
    then if fails expire_low then (redis', true) else (expire key counter_ttl_seconds redis', false)
    else (redis', false)

abbrev pub granted_unlimited : ℕ → EmailQuotaDecision
granted_unlimited limit = record { allowed = true; limit = limit; used = pos 0; degraded = false }

abbrev pub failed_open : ℕ → EmailQuotaDecision
failed_open limit = record { allowed = true; limit = limit; used = pos 0; degraded = true }

abbrev pub granted : ℕ → ℤ → EmailQuotaDecision
granted limit used = record { allowed = true; limit = limit; used = used; degraded = false }

abbrev pub refused : ℕ → EmailQuotaDecision
refused limit = record { allowed = false; limit = limit; used = pos limit; degraded = false }

abbrev pub refused_unless_thrown : ℕ → Attempt → Redis × EmailQuotaDecision
refused_unless_thrown limit (redis, true) = (redis, failed_open limit)
refused_unless_thrown limit (redis, false) = (redis, refused limit)

-- What follows the INCR of `reserve`, by its answer.
unfoldable pub settle : (Command → Bool) → ℕ → Key → ℤ → Redis → Redis × EmailQuotaDecision
settle fails limit key used redis =
    if is_one used && fails expire_new
    then (redis, failed_open limit)
    else let redis' = if is_one used then expire key counter_ttl_seconds redis else redis in
      if exceeds used limit
      then refused_unless_thrown limit (give_back fails key redis')
      else (redis', granted limit used)

unfoldable pub reserve : (Command → Bool) → ℕ → Key → Redis → Redis × EmailQuotaDecision
reserve fails limit key redis =
    if leb limit 0
    then (redis, granted_unlimited limit)
    else if fails incr_counter
    then (redis, failed_open limit)
    else let (redis', used) = incr key redis in settle fails limit key used redis'

unfoldable pub release : (Command → Bool) → ℕ → Key → Redis → Redis
release fails limit key redis = if leb limit 0 then redis else (give_back fails key redis).0

abbrev pub positive_part : ℤ → ℕ
positive_part (pos n) = n
positive_part (negsuc n) = 0

-- `getUsage`: what is counted today, and the limit.
unfoldable pub get_usage : (Command → Bool) → ℕ → Key → Redis → ℕ × ℕ
get_usage fails limit key redis =
    if fails read_counter then (0, limit) else (positive_part (value_of (redis key)), limit)
