-- ===== src/Throttle/Windows.antt =====
-- How many requests pass the guard within one window.
use feedpulse.Base.{
  ℕ, suc, ◌+◌, ◌-◌, ◌≤◌, ◌<◌, ◌≡◌, refl, sym, ap, ◌∙◌, subst, Bool, true, false, ◌&&◌, Option, none,
  some, List, [], ◌∷◌, String, str_eq, eq_refl, ◌==◌, ltb, leb, if◌then◌else◌, inl, inr, select,
  update, find, find-mem, find-append, any, none_of_not_any, All, &&-eq-true, eq_iff, ==_iff,
  Bool-cases, Option-cases, arith,
}
use mathlib.Core.Option
use feedpulse.Opml.Marks.{find-update}
use feedpulse.Throttle.Lookups.{find-select, find-new}
use feedpulse.Throttle.Store.{
  RateLimitConsumption, Window, is_window_of, is_live, hit, evict_expired, opened_window,
  consume_found, consume,
}
use feedpulse.Throttle.Guard.{
  RateLimitOptions, Metadata, Request, Answer, allowed, billed, judge, can_activate,
}

-- One request to the guard.
pub record Event : Type 0 where
  pub now : ℕ
  pub metadata : Metadata
  pub request : Request

module _ (options : RateLimitOptions) (key : String) (limit : ℕ) where
  abbrev pub is_billed : Option (String × ℕ) → Bool
  is_billed none = false
  is_billed (some (k, l)) = str_eq k key && (l == limit)

  abbrev pub is_allowed : Answer → Bool
  is_allowed (allowed headers) = true
  is_allowed _ = false

  -- How many of the requests, one after the other, are billed to the key with the limit and pass.
  unfoldable pub passed : List Event → List Window → ℕ
  passed [] windows = 0
  passed (e ∷ events) windows =
      let (windows', answer) = can_activate options e.now e.metadata e.request windows in
      let rest = passed events windows' in
      if is_billed (billed options e.metadata e.request) && is_allowed answer
      then suc rest
      else rest

  judge-allowed : (l : ℕ) (c : RateLimitConsumption) → is_allowed (judge l c) ≡ leb c.total_hits l
  unfolding judge
  judge-allowed l c = elim (Bool-cases (ltb l c.total_hits)) [
    | inl e ↦ rw e (sym (ground arith))
    | inr e ↦ rw e (sym (ground arith))
  ]

  -- Another request keeps a live window: its end is as before, and its hits are no fewer.
  record Kept (w : Window) (windows : List Window) : Type 0 where
    kept : Window
    found : find (is_window_of key) windows ≡ some kept
    same_end : kept.expires_at_ms ≡ w.expires_at_ms
    more : w.hits ≤ kept.hits

  opened-Kept :
      (now window_ms : ℕ) (k : String) (windows : List Window) (w : Window)
      → find (is_window_of key) windows ≡ some w
      → is_live now w ≡ true
      → Kept w (opened_window now k window_ms windows).0
  unfolding evict_expired
  opened-Kept now window_ms k windows w e live = record {
    kept = w;
    found =
        find-append (is_window_of key) (select (is_live now) windows) _ w
          (find-select (is_window_of key) (is_live now) windows w e live);
    same_end = refl;
    more = omega arith;
  }

  hit-Kept :
      (k : String) (windows : List Window) (w : Window)
      → find (is_window_of key) windows ≡ some w
      → Kept w (update (is_window_of k) hit windows)
  hit-Kept k windows w e =
      let found =
        find-update (is_window_of key) (is_window_of k) hit windows (λ r. refl)
        ∙ ap (Option.map (λ r. if is_window_of k r then hit r else r)) e in
      elim (Bool-cases (is_window_of k w)) [
        | inl h ↦ record {
          kept = hit w;
          found = found ∙ rw h refl;
          same_end = refl;
          more = omega arith;
        }
        | inr h ↦ record {
          kept = w;
          found = found ∙ rw h refl;
          same_end = refl;
          more = omega arith;
        }
      ]

  found-Kept :
      (now window_ms : ℕ) (k : String) (windows : List Window) (w : Window) (o : Option Window)
      → find (is_window_of key) windows ≡ some w
      → is_live now w ≡ true
      → Kept w (consume_found now k window_ms windows o).0
  found-Kept now window_ms k windows w none e live = opened-Kept now window_ms k windows w e live
  found-Kept now window_ms k windows w (some v) e live = elim (Bool-cases (is_live now v)) [
    | inl h ↦ rw h (hit-Kept k windows w e)
    | inr h ↦ rw h (opened-Kept now window_ms k windows w e live)
  ]

  -- A request under the key in a live window counts one more hit.
  own-hit :
      (now window_ms : ℕ) (windows : List Window) (w : Window)
      → find (is_window_of key) windows ≡ some w
      → is_live now w ≡ true
      → consume now key window_ms windows ≡ (
        update (is_window_of key) hit windows,
        record { total_hits = w.hits + 1; reset_after_ms = w.expires_at_ms - now },
      )
  unfolding consume
  own-hit now window_ms windows w e live = rw (e, live) refl

  hit-found :
      (windows : List Window) (w : Window)
      → find (is_window_of key) windows ≡ some w
      → find (is_window_of key) (update (is_window_of key) hit windows) ≡ some (hit w)
  hit-found windows w e =
      find-update (is_window_of key) (is_window_of key) hit windows (λ r. refl)
      ∙ ap (Option.map (λ r. if is_window_of key r then hit r else r)) e
      ∙ rw (find-mem (is_window_of key) windows e).1 refl

  billed-own :
      (k : String) (l : ℕ) → (str_eq k key && (l == limit)) ≡ true → (k ≡ key) × (l ≡ limit)
  billed-own k l h =
      let (a, b) = &&-eq-true (str_eq k key) (l == limit) h in
      ((eq_iff k key).0 a, (==_iff l limit).0 b)

  own-bound :
      (h rest : ℕ)
      → rest ≤ limit - (h + 1)
      → (if leb (h + 1) limit then suc rest else rest) ≤ limit - h
  own-bound h rest b = ground arith

  consume-Kept :
      (now window_ms : ℕ) (k : String) (windows : List Window) (w : Window)
      → find (is_window_of key) windows ≡ some w
      → is_live now w ≡ true
      → Kept w (consume now k window_ms windows).0
  unfolding consume
  consume-Kept now window_ms k windows w e live = found-Kept now window_ms k windows w _ e live

  -- In a live window pass as many requests as its hits leave up to the limit, at most.
  passed-live :
      (events : List Event) (windows : List Window) (w : Window)
      → find (is_window_of key) windows ≡ some w
      → All (λ e. e.now < w.expires_at_ms) events
      → passed events windows ≤ limit - w.hits
  unfolding passed can_activate
  passed-live [] windows w e within = omega arith
  passed-live (x ∷ events) windows w e within =
      let live : is_live x.now w ≡ true = ground (arith, within.0) in
      elim (Option-cases (billed options x.metadata x.request)) [
        | inl b ↦ rw b (passed-live events windows w e within.1)
        | inr ((k, l), b) ↦ elim (Bool-cases (str_eq k key && (l == limit))) [
          | inl own ↦
              let (same_key, same_limit) = billed-own k l own in
              let rest =
                passed-live events (update (is_window_of key) hit windows) (hit w)
                  (hit-found windows w e) within.1 in
              rw
                (
                  b,
                  same_key,
                  same_limit,
                  own-hit x.now options.window_ms windows w e live,
                  eq_refl key,
                  (==_iff limit limit).1 refl,
                  judge-allowed limit (record {
                    total_hits = w.hits + 1;
                    reset_after_ms = w.expires_at_ms - x.now;
                  }),
                )
                (own-bound w.hits (passed events (update (is_window_of key) hit windows)) rest)
          | inr other ↦
              let k' = consume-Kept x.now options.window_ms k windows w e live in
              let rest =
                passed-live events (consume x.now k options.window_ms windows).0 k'.kept k'.found
                  (subst (λ t. All (λ (e : Event). e.now < t) events) (sym k'.same_end) within.1) in
              rw (b, other) (omega (arith, rest, k'.more))
        ]
      ]

  -- The first request under a key that has no live window opens one.
  opens-window :
      (now window_ms : ℕ) (windows : List Window) (o : Option Window)
      → find (is_window_of key) windows ≡ o
      → any (λ w. is_window_of key w && is_live now w) windows ≡ false
      → consume_found now key window_ms windows o ≡ opened_window now key window_ms windows
  opens-window now window_ms windows none e h = refl
  opens-window now window_ms windows (some w) e h =
      let (m, own) = find-mem (is_window_of key) windows e in
      let none_live = none_of_not_any (λ w. is_window_of key w && is_live now w) windows h w m in
      let dead : is_live now w ≡ false = rw own at none_live in rw dead refl

  first-bound : (rest : ℕ) → rest ≤ limit - 1 → (if leb 1 limit then suc rest else rest) ≤ limit
  first-bound rest b = ground arith

  -- With the store of one process, MemoryRateLimitStore, which is the fallback where Redis
  -- cannot evaluate scripts: a request that is billed to a key with a limit and finds no live
  -- window of the key, and any requests before the end of the window that it opens, under this
  -- key and others: of those billed to the key with the limit no more pass the guard of this
  -- process than the limit.
  pub window_keeps_limit :
      (x : Event) (events : List Event) (windows : List Window)
      → billed options x.metadata x.request ≡ some (key, limit)
      → any (λ w. is_window_of key w && is_live x.now w) windows ≡ false
      → All (λ e. e.now < x.now + options.window_ms) events
      → passed (x ∷ events) windows ≤ limit
  unfolding passed can_activate consume
  window_keeps_limit x events windows b closed within =
      let opened : Window = record {
        key = key;
        hits = 1;
        expires_at_ms = x.now + options.window_ms;
      } in
      let found = find-new (is_window_of key) (is_live x.now) windows opened closed (eq_refl key) in
      let rest =
        passed-live events (opened_window x.now key options.window_ms windows).0 opened
          (unfold evict_expired in found) within in
      rw
        (
          b,
          opens-window x.now options.window_ms windows _ refl closed,
          eq_refl key,
          (==_iff limit limit).1 refl,
          judge-allowed limit (record { total_hits = 1; reset_after_ms = options.window_ms }),
        )
        (first-bound (passed events (opened_window x.now key options.window_ms windows).0) rest)
