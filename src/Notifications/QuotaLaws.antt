-- ===== src/Notifications/QuotaLaws.antt =====
-- What one call of the quota service does to the tenant's counter.
use feedpulse.Base.{
  ℕ, suc, ◌<◌, ◌≡◌, refl, inl, inr, ◌⊎◌, Bool, true, false, arith, eq_refl, ltb, if◌then◌else◌,
  Option-cases,
}
use feedpulse.Notifications.Counter.{
  pos, Key, Redis, value_of, succ_ℤ, pred_ℤ, incr, decr, expire, set_counter, same_key,
}
use feedpulse.Notifications.Quota.{
  Command, incr_counter, expire_new, failed_open, reserve, release, settle, give_back, granted,
  refused, counter_ttl_seconds,
}

same_key_self : (k : Key) → same_key k k ≡ true
unfolding same_key
same_key_self k = rw (eq_refl k.tenant_id) (ground arith)

-- The store at the key that a command names.
pub incr_lem :
    (k : Key) (redis : Redis)
    → ((incr k redis).1 ≡ succ_ℤ (value_of (redis k)))
      × (value_of ((incr k redis).0 k) ≡ succ_ℤ (value_of (redis k)))
unfolding incr set_counter
incr_lem k redis = (refl, rw (same_key_self k) refl)

pub decr_lem :
    (k : Key) (redis : Redis)
    → ((decr k redis).1 ≡ pred_ℤ (value_of (redis k)))
      × (value_of ((decr k redis).0 k) ≡ pred_ℤ (value_of (redis k)))
unfolding decr set_counter
decr_lem k redis = (refl, rw (same_key_self k) refl)

pub expire_lem :
    (k : Key) (ttl : ℕ) (redis : Redis) → value_of (expire k ttl redis k) ≡ value_of (redis k)
unfolding expire set_counter
expire_lem k ttl redis = elim (Option-cases (redis k)) [
  | inl e ↦ rw (e, expire) (rw e refl)
  | inr (c, e) ↦ rw (e, expire) (rw (same_key_self k) refl)
]

-- Redis answers every command.
abbrev pub never : Command → Bool
never c = false

give_back_lem :
    (key : Key) (redis : Redis) (n : ℕ)
    → value_of (redis key) ≡ pos (suc n)
    → ((give_back never key redis).1 ≡ false)
      × (value_of ((give_back never key redis).0 key) ≡ pos n)
unfolding give_back
give_back_lem key redis n e =
    ground (arith, decr_lem key redis, expire_lem key counter_ttl_seconds (decr key redis).0)

settle_lem :
    (limit n : ℕ) (key : Key) (redis : Redis)
    → value_of (redis key) ≡ pos (suc n)
    → ((settle never limit key (pos (suc n)) redis).1
        ≡ (if ltb n limit then granted limit (pos (suc n)) else refused limit))
      × (value_of ((settle never limit key (pos (suc n)) redis).0 key)
          ≡ pos (if ltb n limit then suc n else n))
unfolding settle
settle_lem limit n key redis e = ground (
  arith,
  expire_lem key counter_ttl_seconds redis,
  give_back_lem key redis n,
  give_back_lem key (expire key counter_ttl_seconds redis) n,
)

-- While Redis answers and the limit is not 0, a reservation is granted exactly if fewer than `limit`
-- emails are counted. It then counts one more; a refused one leaves the count as it was.
reserve_lem :
    (limit n : ℕ) (key : Key) (redis : Redis)
    → 0 < limit
    → value_of (redis key) ≡ pos n
    → ((reserve never limit key redis).1
        ≡ (if ltb n limit then granted limit (pos (suc n)) else refused limit))
      × (value_of ((reserve never limit key redis).0 key) ≡ pos (if ltb n limit then suc n else n))
unfolding reserve
reserve_lem limit n key redis h e =
    ground (arith, incr_lem key redis, settle_lem limit n key (incr key redis).0)

-- Giving a granted reservation back restores the count, so a failed send costs nothing.
release-reserve :
    (limit n : ℕ) (key : Key) (redis : Redis)
    → n < limit
    → value_of (redis key) ≡ pos n
    → value_of (release never limit key (reserve never limit key redis).0 key) ≡ pos n
unfolding release
release-reserve limit n key redis h e =
    ground
      (arith, reserve_lem limit n key redis, give_back_lem key (reserve never limit key redis).0 n)

-- An outage never blocks a delivery: when INCR throws, or EXPIRE does on the day's first email, the
-- send is allowed, marked as degraded.
reserve_fails_open :
    (fails : Command → Bool) (limit : ℕ) (key : Key) (redis : Redis)
    → 0 < limit
    → (fails incr_counter ≡ true) ⊎ ((fails expire_new ≡ true) × (value_of (redis key) ≡ pos 0))
    → (reserve fails limit key redis).1 ≡ failed_open limit
unfolding reserve settle
reserve_fails_open fails limit key redis h (inl f) = ground arith
reserve_fails_open fails limit key redis h (inr (f, e)) = ground (arith, incr_lem key redis)
