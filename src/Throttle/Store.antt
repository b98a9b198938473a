-- ===== src/Throttle/Store.antt =====
-- The counters of shared/http/throttler.module.ts: the windows of one process, and what is made of the
-- reply of the Redis script.
use feedpulse.Base.{
  ℕ, ◌+◌, ◌-◌, Bool, Option, none, some, List, [], ◌∷◌, ◌++◌, String, str_eq, ltb, if◌then◌else◌,
  select, update, find, or_else,
}

pub record RateLimitConsumption : Type 0 where
  pub total_hits : ℕ
  pub reset_after_ms : ℕ

-- An entry of `MemoryRateLimitStore.windows`.
pub record Window : Type 0 where
  pub key : String
  pub hits : ℕ
  pub expires_at_ms : ℕ

abbrev pub is_window_of : String → Window → Bool
is_window_of key w = str_eq w.key key

abbrev pub is_live : ℕ → Window → Bool
is_live now w = ltb now w.expires_at_ms

abbrev pub hit : Window → Window
hit w = record w { hits = w.hits + 1 }

-- Drops every window that is over.
unfoldable pub evict_expired : ℕ → List Window → List Window
evict_expired now windows = select (is_live now) windows

abbrev pub opened_window : ℕ → String → ℕ → List Window → List Window × RateLimitConsumption
opened_window now key window_ms windows = (
  evict_expired now windows ++ record { key = key; hits = 1; expires_at_ms = now + window_ms } ∷ [],
  record { total_hits = 1; reset_after_ms = window_ms },
)

-- A window that is over is dropped by the eviction before the new one is set under its key.
abbrev pub consume_found :
    ℕ → String → ℕ → List Window → Option Window → List Window × RateLimitConsumption
consume_found now key window_ms windows none = opened_window now key window_ms windows
consume_found now key window_ms windows (some w) =
    if is_live now w
    then (
      update (is_window_of key) hit windows,
      record { total_hits = w.hits + 1; reset_after_ms = w.expires_at_ms - now },
    )
    else opened_window now key window_ms windows

-- `MemoryRateLimitStore.consume`
unfoldable pub consume : ℕ → String → ℕ → List Window → List Window × RateLimitConsumption
consume now key window_ms windows =
    consume_found now key window_ms windows (find (is_window_of key) windows)

-- The reply of `eval`: no array, or its first two values as `toPositiveNumber` reads them.
pub data Reply : Type 0 where
  no_array : Reply
  values : Option ℕ → Option ℕ → Reply

-- `RedisRateLimitStore.consume`; none is a throw.
unfoldable pub consume_reply : ℕ → Reply → Option RateLimitConsumption
consume_reply window_ms no_array = none
consume_reply window_ms (values none ttl) = none
consume_reply window_ms (values (some total_hits) ttl) =
    some (record { total_hits = total_hits; reset_after_ms = or_else ttl window_ms })
