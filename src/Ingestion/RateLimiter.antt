-- ===== src/Ingestion/RateLimiter.antt =====
-- `DomainRateLimiter` of modules/ingestion/infrastructure/domain-rate-limiter.ts. The clock is an
-- argument, in milliseconds, and a sleep ends at a later reading of it. The url parser, parseInt and
-- the date parser are the runtime's. 1000 / requestsPerSecond is taken for rates that divide 1000, as
-- the default of 2 does.
use feedpulse.Base.{
  ℕ, ◌+◌, ◌-◌, ◌*◌, ◌/◌, min, max, String, Bool, true, false, ◌&&◌, Option, none, some, ltb, ◌==◌,
  str_eq, if◌then◌else◌, or_else,
}
use feedpulse.Notifications.Counter.{ℤ, pos, negsuc}

pub record DomainRateLimiterOptions : Type 0 where
  pub requests_per_second : ℕ
  pub max_backoff_ms : ℕ
  pub base_backoff_ms : ℕ

abbrev pub default_options : DomainRateLimiterOptions
default_options = record { requests_per_second = 2; max_backoff_ms = 60000; base_backoff_ms = 1000 }

pub record Runtime : Type 0 where
  pub hostname : String → Option String
  pub parse_int : String → Option ℤ
  pub parse_date : String → Option ℕ

-- The two maps, by domain.
pub record Limiter : Type 0 where
  pub last_request_at : String → Option ℕ
  pub backoff_until : String → Option ℕ

abbrev set_entry : String → Option ℕ → (String → Option ℕ) → String → Option ℕ
set_entry key value entries k = if str_eq k key then value else entries k

unfoldable pub get_domain_key : Runtime → String → String
get_domain_key rt url = or_else (rt.hostname url) url

unfoldable pub is_backing_off : Runtime → ℕ → String → Limiter → Bool
is_backing_off rt now url l = ltb now (or_else (l.backoff_until (get_domain_key rt url)) 0)

-- `Math.max(0, until - now)`
unfoldable pub get_backoff_remaining_ms : Runtime → ℕ → String → Limiter → ℕ
get_backoff_remaining_ms rt now url l = or_else (l.backoff_until (get_domain_key rt url)) 0 - now

abbrev times_1000 : ℤ → ℤ
times_1000 (pos n) = pos (n * 1000)
times_1000 (negsuc n) = negsuc (n * 1000 + 999)

abbrev from_date : ℕ → Option ℕ → ℤ
from_date now none = pos 0
from_date now (some date) = pos (date - now)

abbrev from_header : Runtime → ℕ → String → Option ℤ → ℤ
from_header rt now header (some seconds) = times_1000 seconds
from_header rt now header none = from_date now (rt.parse_date header)

-- The delay that a Retry-After header asks for; 0 without one.
unfoldable pub retry_after_ms : Runtime → ℕ → Option String → ℤ
retry_after_ms rt now none = pos 0
retry_after_ms rt now (some header) = from_header rt now header (rt.parse_int header)

unfoldable pub exponential_backoff_ms :
    Runtime → DomainRateLimiterOptions → ℕ → String → Limiter → ℕ
exponential_backoff_ms rt o now url l =
    let previous = or_else (l.backoff_until (get_domain_key rt url)) now - now in
    min o.max_backoff_ms (max o.base_backoff_ms (previous * 2))

abbrev chosen_backoff : Bool → ℕ → ℤ → ℤ
chosen_backoff is_retry exponential (pos n) =
    if (n == 0) && is_retry then pos exponential else pos n
chosen_backoff is_retry exponential (negsuc n) = negsuc n

-- The limiter after it, and whether the metric counts.
abbrev backed_off : ℕ → String → Limiter → ℤ → Limiter × Bool
backed_off now domain l (negsuc n) = (l, false)
backed_off now domain l (pos n) =
    if ltb 0 n
    then (record l { backoff_until = set_entry domain (some (now + n)) l.backoff_until }, true)
    else (l, false)

unfoldable pub apply_backoff :
    Runtime
    → DomainRateLimiterOptions
    → ℕ
    → String
    → Option String
    → Bool
    → Limiter
    → Limiter × Bool
apply_backoff rt o now url retry_after_header is_retry l =
    backed_off now (get_domain_key rt url) l (
      chosen_backoff is_retry (exponential_backoff_ms rt o now url l)
        (retry_after_ms rt now retry_after_header))

unfoldable pub clear_backoff : Runtime → String → Limiter → Limiter
clear_backoff rt url l = record l {
  backoff_until = set_entry (get_domain_key rt url) none l.backoff_until;
}

abbrev pub min_interval_ms : DomainRateLimiterOptions → ℕ
min_interval_ms o = 1000 / o.requests_per_second

-- The second sleep: what is left of the interval since the last request.
unfoldable pub slot_sleep_ms : Runtime → DomainRateLimiterOptions → ℕ → String → Limiter → ℕ
slot_sleep_ms rt o now url l =
    or_else (l.last_request_at (get_domain_key rt url)) 0 + min_interval_ms o - now

-- `if (ms > 0) await this.sleep(ms)`: the time after it. `sleep now ms` is when a sleep of `ms` that
-- begins at `now` ends.
unfoldable pub sleep_for : (ℕ → ℕ → ℕ) → ℕ → ℕ → ℕ
sleep_for sleep now ms = if ltb 0 ms then sleep now ms else now

-- What a wait ends with: the limiter, the time and the milliseconds that it returns.
pub record Slot : Type 0 where
  pub limiter : Limiter
  pub ready : ℕ
  pub waited_ms : ℕ

-- `waitForSlot`, called at `called`: it sleeps out the backoff and then the interval, and takes the
-- place of the domain's last request. Nothing else runs on the limiter meanwhile.
unfoldable pub wait_for_slot :
    Runtime → DomainRateLimiterOptions → (ℕ → ℕ → ℕ) → (called : ℕ) → String → Limiter → Slot
wait_for_slot rt o sleep called url l =
    let backoff = get_backoff_remaining_ms rt called url l in
    let awake = sleep_for sleep called backoff in
    let rest = slot_sleep_ms rt o awake url l in
    let ready = sleep_for sleep awake rest in
    record {
      limiter = record l {
        last_request_at = set_entry (get_domain_key rt url) (some ready) l.last_request_at;
      };
      ready = ready;
      waited_ms = rest + backoff;
    }
