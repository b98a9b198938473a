-- ===== src/Ingestion/Spacing.antt =====
-- What the rate limiter guarantees of one domain's requests.
use feedpulse.Base.{ℕ, ◌+◌, ◌≤◌, ◌≡◌, refl, some, String, arith, or_else, eq_refl}
use feedpulse.Ingestion.RateLimiter.{
  Runtime, DomainRateLimiterOptions, Limiter, get_domain_key, get_backoff_remaining_ms,
  min_interval_ms, slot_sleep_ms, sleep_for, wait_for_slot,
}

-- A sleep lasts at least as long as it was asked to.
abbrev pub Lasts : (ℕ → ℕ → ℕ) → Type 0
Lasts sleep = (now ms : ℕ) → now + ms ≤ sleep now ms

sleep_for-Lasts :
    (sleep : ℕ → ℕ → ℕ) → Lasts sleep → (now ms : ℕ) → now + ms ≤ sleep_for sleep now ms
unfolding sleep_for
sleep_for-Lasts sleep lasts now ms = ground (arith, lasts now ms)

module _ (rt : Runtime) (o : DomainRateLimiterOptions) (url : String) (l : Limiter)
    (sleep : ℕ → ℕ → ℕ) (lasts : Lasts sleep) (called : ℕ) where
  -- Provided that a sleep lasts at least as long as it was asked to, and that no other request
  -- waits on the limiter meanwhile: a wait for a slot, whenever it is called, ends no sooner
  -- than the domain's backoff allows and at least the interval after the domain's last
  -- request, and what it leaves as the domain's last request is the moment at which it ends.
  pub wait_for_slot_lem :
      (or_else (l.backoff_until (get_domain_key rt url)) 0
        ≤ (wait_for_slot rt o sleep called url l).ready)
      × (or_else (l.last_request_at (get_domain_key rt url)) 0 + min_interval_ms o
          ≤ (wait_for_slot rt o sleep called url l).ready)
      × ((wait_for_slot rt o sleep called url l).limiter.last_request_at (get_domain_key rt url)
          ≡ some (wait_for_slot rt o sleep called url l).ready)
  unfolding wait_for_slot get_backoff_remaining_ms slot_sleep_ms
  wait_for_slot_lem =
      let backoff = get_backoff_remaining_ms rt called url l in
      let awake = sleep_for sleep called backoff in
      let rest = slot_sleep_ms rt o awake url l in
      let slept = sleep_for-Lasts sleep lasts called backoff in
      let slept_again = sleep_for-Lasts sleep lasts awake rest in
      (
        omega (arith, slept, slept_again),
        omega (arith, slept_again),
        rw (eq_refl (get_domain_key rt url)) refl,
      )
