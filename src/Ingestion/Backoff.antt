-- ===== src/Ingestion/Backoff.antt =====
-- Bounds of the delays after a failed fetch.
use feedpulse.Base.{
  ℕ, ◌+◌, ◌-◌, ◌*◌, ◌/◌, ◌≤◌, ◌<◌, min, max, ◌≡◌, refl, suc, zero, arith, leb, if◌then◌else◌,
}
use feedpulse.Feeds.Claim.{draw_range}
use feedpulse.Ingestion.Failure.{
  random_below, capped_backoff_seconds, compute_error_backoff_seconds,
}

draw_product : (d n : ℕ) → d < draw_range → d * n + n ≤ draw_range * n
draw_product d n h = grind arith

pub random_below-bound : (draw n : ℕ) → draw < draw_range → 1 ≤ n → random_below draw n < n
unfolding random_below
random_below-bound draw n h k = omega (arith, draw_product draw n h)

capped_backoff-bound :
    (poll_interval_seconds error_count : ℕ)
    → capped_backoff_seconds poll_interval_seconds error_count ≤ 21600
unfolding capped_backoff_seconds
capped_backoff-bound poll e = omega arith

-- After a failure the delay is the poll interval doubled for each error but the first, at most six
-- hours, and then up to fifteen per cent of it or 899 seconds on top, whichever is less: whatever the
-- random draw, and never more than 22499 seconds in all.
pub error_backoff-bounds :
    (draw poll_interval_seconds error_count : ℕ)
    → draw < draw_range
    → (capped_backoff_seconds poll_interval_seconds error_count
        ≤ compute_error_backoff_seconds draw poll_interval_seconds error_count)
      × (compute_error_backoff_seconds draw poll_interval_seconds error_count
          ≤ capped_backoff_seconds poll_interval_seconds error_count
            + min 899 (capped_backoff_seconds poll_interval_seconds error_count * 15 / 100))
      × (compute_error_backoff_seconds draw poll_interval_seconds error_count ≤ 22499)
unfolding compute_error_backoff_seconds
error_backoff-bounds draw poll_interval_seconds error_count h =
    let capped = capped_backoff_seconds poll_interval_seconds error_count in
    let range = min 900 (max 1 (capped * 15 / 100)) in
    let jitter = random_below-bound draw range h (omega arith) in
    let bound = capped_backoff-bound poll_interval_seconds error_count in
    (omega arith, omega (arith, jitter), omega (arith, jitter, bound))

capped_backoff-from_six :
    (poll_interval_seconds error_count : ℕ)
    → 6 ≤ error_count
    → capped_backoff_seconds poll_interval_seconds error_count
      ≡ min (poll_interval_seconds * 32) 21600
unfolding capped_backoff_seconds
capped_backoff-from_six poll e h = let five : max 1 (min e 6) - 1 ≡ 5 = omega arith in rw five refl

-- Each further error doubles the delay before jitter, up to six hours, until the sixth; from then on
-- it stays.
capped_backoff-step :
    (poll_interval_seconds error_count : ℕ)
    → 1 ≤ error_count
    → capped_backoff_seconds poll_interval_seconds (error_count + 1) ≡ (
        if leb 6 error_count
        then capped_backoff_seconds poll_interval_seconds error_count
        else min (2 * capped_backoff_seconds poll_interval_seconds error_count) 21600)
unfolding capped_backoff_seconds
capped_backoff-step poll zero h = omega arith
capped_backoff-step poll (suc zero) h = omega arith
capped_backoff-step poll (suc (suc zero)) h = omega arith
capped_backoff-step poll (suc (suc (suc zero))) h = omega arith
capped_backoff-step poll (suc (suc (suc (suc zero)))) h = omega arith
capped_backoff-step poll (suc (suc (suc (suc (suc zero))))) h = omega arith
capped_backoff-step poll (suc (suc (suc (suc (suc (suc e)))))) h =
    let n = suc (suc (suc (suc (suc (suc e))))) in
    ground (
      arith,
      capped_backoff-from_six poll (n + 1) (omega arith),
      capped_backoff-from_six poll n (omega arith),
    )
