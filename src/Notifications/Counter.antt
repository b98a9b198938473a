-- ===== src/Notifications/Counter.antt =====
-- The Redis counters that modules/notifications/infrastructure/email-rate-limit.service.ts uses:
-- INCR, DECR and EXPIRE as Redis documents them. A missing key counts from 0, and DECR may pass it.
use feedpulse.Base.{
  ℕ, zero, suc, String, Bool, true, false, ◌&&◌, Option, none, some, ◌==◌, str_eq, if◌then◌else◌,
  ltb,
}

-- `negsuc n` is -(n + 1).
pub data ℤ : Type 0 where
  pos : ℕ → ℤ
  negsuc : ℕ → ℤ

abbrev pub succ_ℤ : ℤ → ℤ
succ_ℤ (pos n) = pos (suc n)
succ_ℤ (negsuc zero) = pos 0
succ_ℤ (negsuc (suc n)) = negsuc n

abbrev pub pred_ℤ : ℤ → ℤ
pred_ℤ (pos zero) = negsuc 0
pred_ℤ (pos (suc n)) = pos n
pred_ℤ (negsuc n) = negsuc (suc n)

-- `x > limit`, `x <= 0`, `x === 1`.
abbrev pub exceeds : ℤ → ℕ → Bool
exceeds (pos n) limit = ltb limit n
exceeds (negsuc n) limit = false

abbrev pub is_nonpositive : ℤ → Bool
is_nonpositive (pos n) = n == 0
is_nonpositive (negsuc n) = true

abbrev pub is_one : ℤ → Bool
is_one (pos n) = n == 1
is_one (negsuc n) = false

-- `email:daily:{tenantId}:{YYYY-MM-DD}`: the tenant and the UTC day.
pub record Key : Type 0 where
  pub tenant_id : String
  pub utc_day : ℕ

unfoldable pub same_key : Key → Key → Bool
same_key k j = str_eq k.tenant_id j.tenant_id && (k.utc_day == j.utc_day)

pub record Counter : Type 0 where
  pub value : ℤ
  pub ttl_seconds : Option ℕ

abbrev pub Redis : Type 0
Redis = Key → Option Counter

abbrev pub value_of : Option Counter → ℤ
value_of none = pos 0
value_of (some c) = c.value

abbrev pub ttl_of : Option Counter → Option ℕ
ttl_of none = none
ttl_of (some c) = c.ttl_seconds

unfoldable pub set_counter : Key → Counter → Redis → Redis
unfolding same_key
set_counter k c redis j = if same_key k j then some c else redis j

unfoldable pub incr : Key → Redis → Redis × ℤ
unfolding set_counter
incr k redis =
    let v = succ_ℤ (value_of (redis k)) in
    (set_counter k (record { value = v; ttl_seconds = ttl_of (redis k) }) redis, v)

unfoldable pub decr : Key → Redis → Redis × ℤ
unfolding set_counter
decr k redis =
    let v = pred_ℤ (value_of (redis k)) in
    (set_counter k (record { value = v; ttl_seconds = ttl_of (redis k) }) redis, v)

-- EXPIRE of a missing key does nothing.
abbrev expire_counter : Key → ℕ → Option Counter → Redis → Redis
expire_counter k ttl none redis = redis
expire_counter k ttl (some c) redis = set_counter k (record c { ttl_seconds = some ttl }) redis

unfoldable pub expire : Key → ℕ → Redis → Redis
unfolding set_counter
expire k ttl redis = expire_counter k ttl (redis k) redis
