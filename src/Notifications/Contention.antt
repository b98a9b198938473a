-- ===== src/Notifications/Contention.antt =====
-- Callers that reserve and release at the same time. INCR and DECR are atomic, and a refused caller
-- gives back after other callers have run: the steps of one tenant's day, at a limit that does not
-- change.
use feedpulse.Base.{ℕ, zero, suc, ◌+◌, ◌≤◌, ◌≡◌, refl, sym, ap, ◌∙◌, true, false, arith}
use feedpulse.Notifications.Counter.{
  ℤ, pos, negsuc, Key, Redis, value_of, incr, decr, exceeds, succ_ℤ, pred_ℤ, expire,
}
use feedpulse.Notifications.QuotaLaws.{incr_lem, decr_lem, expire_lem}

-- The store; the reservations that were counted and not released; the callers that were over the
-- limit and have not given back yet; the increments that nobody takes back, since a DECR threw; the
-- reservations that were let through without being counted; and the releases of reservations that
-- were not counted on this day.
pub record Day : Type 0 where
  pub redis : Redis
  pub granted : ℕ
  pub over : ℕ
  pub lost : ℕ
  pub uncounted : ℕ
  pub unearned : ℕ

-- z + n
unfoldable pub plus_ℤ : ℕ → ℤ → ℤ
plus_ℤ zero z = z
plus_ℤ (suc n) z = succ_ℤ (plus_ℤ n z)

plus_ℤ-succ_ℤ : (n : ℕ) (z : ℤ) → plus_ℤ n (succ_ℤ z) ≡ succ_ℤ (plus_ℤ n z)
unfolding plus_ℤ
plus_ℤ-succ_ℤ zero z = refl
plus_ℤ-succ_ℤ (suc n) z = ap succ_ℤ (plus_ℤ-succ_ℤ n z)

succ_ℤ-pred_ℤ : (z : ℤ) → succ_ℤ (pred_ℤ z) ≡ pred_ℤ (succ_ℤ z)
succ_ℤ-pred_ℤ (pos zero) = refl
succ_ℤ-pred_ℤ (pos (suc n)) = refl
succ_ℤ-pred_ℤ (negsuc zero) = refl
succ_ℤ-pred_ℤ (negsuc (suc n)) = refl

plus_ℤ-pred_ℤ : (n : ℕ) (z : ℤ) → plus_ℤ n (pred_ℤ z) ≡ pred_ℤ (plus_ℤ n z)
unfolding plus_ℤ
plus_ℤ-pred_ℤ zero z = refl
plus_ℤ-pred_ℤ (suc n) z = ap succ_ℤ (plus_ℤ-pred_ℤ n z) ∙ succ_ℤ-pred_ℤ (plus_ℤ n z)

succ_ℤ-bound :
    (bound : ℕ) (z : ℤ) → exceeds z bound ≡ false → exceeds (succ_ℤ z) (suc bound) ≡ false
succ_ℤ-bound bound (pos n) h = ground (arith, h)
succ_ℤ-bound bound (negsuc zero) h = ground arith
succ_ℤ-bound bound (negsuc (suc n)) h = refl

plus_ℤ-bound :
    (limit n : ℕ) (z : ℤ) → exceeds z limit ≡ false → exceeds (plus_ℤ n z) (n + limit) ≡ false
unfolding plus_ℤ
plus_ℤ-bound limit zero z h = rw (zero_bound) h
  where
    zero_bound : 0 + limit ≡ limit
    zero_bound = omega arith
plus_ℤ-bound limit (suc n) z h =
    ap (exceeds (succ_ℤ (plus_ℤ n z))) (omega arith)
    ∙ succ_ℤ-bound (n + limit) (plus_ℤ n z) (plus_ℤ-bound limit n z h)

bound-of_pos : (n bound : ℕ) → exceeds (pos n) bound ≡ false → n ≤ bound
bound-of_pos n bound h = ground (arith, h)

module _ (limit : ℕ) (key : Key) where
  -- A caller's INCR by its answer, or that it throws and lets the caller through; the give-back of a
  -- refused caller, or that it throws and lets the caller through; a release, of a reservation of
  -- this day that was counted or of any other, or that it throws; and EXPIRE.
  pub data Step (d : Day) : Day → Type 0 where
    grants :
        exceeds (incr key d.redis).1 limit ≡ false
        → Step d (record d { redis = (incr key d.redis).0; granted = suc d.granted })
    refuses :
        exceeds (incr key d.redis).1 limit ≡ true
        → Step d (record d { redis = (incr key d.redis).0; over = suc d.over })
    lets_through : Step d (record d { uncounted = suc d.uncounted })
    gives_back :
        (n : ℕ) → d.over ≡ suc n → Step d (record d { redis = (decr key d.redis).0; over = n })
    gives_back_fails :
        (n : ℕ)
        → d.over ≡ suc n
        → Step d (record d { over = n; lost = suc d.lost; uncounted = suc d.uncounted })
    releases :
        (n : ℕ)
        → d.granted ≡ suc n
        → Step d (record d { redis = (decr key d.redis).0; granted = n })
    releases_unearned :
        Step d (record d { redis = (decr key d.redis).0; unearned = suc d.unearned })
    release_fails :
        (n : ℕ) → d.granted ≡ suc n → Step d (record d { granted = n; lost = suc d.lost })
    rearms : (ttl : ℕ) → Step d (record d { redis = expire key ttl d.redis })

  pub data Reach (d : Day) : Day → Type 0 where
    here : Reach d d
    next : {e f : Day} → Reach d e → Step e f → Reach d f

  -- The counter is the number of the granted, the over and the lost less that of the unearned
  -- releases, and no more are granted than the limit and the unearned releases together.
  pub record IsCounted (d : Day) : Type 0 where
    pub counted : plus_ℤ d.unearned (value_of (d.redis key)) ≡ pos (d.granted + d.over + d.lost)
    pub bounded : d.granted ≤ limit + d.unearned

  up :
      {n : ℕ} (unearned : ℕ) (redis : Redis)
      → plus_ℤ unearned (value_of (redis key)) ≡ pos n
      → plus_ℤ unearned (value_of ((incr key redis).0 key)) ≡ pos (suc n)
  up unearned redis e =
      ap (plus_ℤ unearned) (incr_lem key redis).1
      ∙ plus_ℤ-succ_ℤ unearned (value_of (redis key))
      ∙ ap succ_ℤ e

  down :
      {n : ℕ} (unearned : ℕ) (redis : Redis)
      → plus_ℤ unearned (value_of (redis key)) ≡ pos (suc n)
      → plus_ℤ unearned (value_of ((decr key redis).0 key)) ≡ pos n
  down unearned redis e =
      ap (plus_ℤ unearned) (decr_lem key redis).1
      ∙ plus_ℤ-pred_ℤ unearned (value_of (redis key))
      ∙ ap pred_ℤ e

  down_unearned :
      {n : ℕ} (unearned : ℕ) (redis : Redis)
      → plus_ℤ unearned (value_of (redis key)) ≡ pos n
      → plus_ℤ (suc unearned) (value_of ((decr key redis).0 key)) ≡ pos n
  unfolding plus_ℤ
  down_unearned unearned redis e =
      ap (λ z. succ_ℤ (plus_ℤ unearned z)) (decr_lem key redis).1
      ∙ ap succ_ℤ (plus_ℤ-pred_ℤ unearned (value_of (redis key)))
      ∙ ap (λ z. succ_ℤ (pred_ℤ z)) e
      ∙ succ_ℤ-pred_ℤ (pos _)

  -- An INCR that does not exceed the limit leaves room below the limit and the unearned releases.
  room :
      {n : ℕ} (unearned : ℕ) (redis : Redis)
      → plus_ℤ unearned (value_of (redis key)) ≡ pos n
      → exceeds (incr key redis).1 limit ≡ false
      → suc n ≤ unearned + limit
  room {n} unearned redis e h =
      let within : exceeds (value_of ((incr key redis).0 key)) limit ≡ false =
        ap (λ z. exceeds z limit) ((incr_lem key redis).1 ∙ sym (incr_lem key redis).0) ∙ h in
      bound-of_pos (suc n) (unearned + limit) (
        ap (λ z. exceeds z (unearned + limit)) (sym (up unearned redis e))
        ∙ plus_ℤ-bound limit unearned _ within)

  Step-IsCounted : {d e : Day} → IsCounted d → Step d e → IsCounted e
  Step-IsCounted {d} v (grants h) = record {
    counted = up d.unearned d.redis v.counted ∙ ap pos (omega arith);
    bounded = omega (arith, room d.unearned d.redis v.counted h);
  }
  Step-IsCounted {d} v (refuses h) = record {
    counted = up d.unearned d.redis v.counted ∙ ap pos (omega arith);
    bounded = v.bounded;
  }
  Step-IsCounted {d} v lets_through = record { counted = v.counted; bounded = v.bounded }
  Step-IsCounted {d} v (gives_back n h) = record {
    counted = down d.unearned d.redis (v.counted ∙ ap pos (omega (arith, h)));
    bounded = v.bounded;
  }
  Step-IsCounted {d} v (gives_back_fails n h) = record {
    counted = v.counted ∙ ap pos (omega (arith, h));
    bounded = v.bounded;
  }
  Step-IsCounted {d} v (releases n h) = record {
    counted = down d.unearned d.redis (v.counted ∙ ap pos (omega (arith, h)));
    bounded = omega (arith, v.bounded, h);
  }
  Step-IsCounted {d} v releases_unearned = record {
    counted = down_unearned d.unearned d.redis v.counted;
    bounded = omega (arith, v.bounded);
  }
  Step-IsCounted {d} v (release_fails n h) = record {
    counted = v.counted ∙ ap pos (omega (arith, h));
    bounded = omega (arith, v.bounded, h);
  }
  Step-IsCounted {d} v (rearms ttl) = record {
    counted = ap (plus_ℤ d.unearned) (expire_lem key ttl d.redis) ∙ v.counted;
    bounded = v.bounded;
  }

  Reach-IsCounted : {d e : Day} → IsCounted d → Reach d e → IsCounted e
  Reach-IsCounted v here = v
  Reach-IsCounted v (next r s) = Step-IsCounted (Reach-IsCounted v r) s

  -- However the commands of concurrent callers interleave, on a day of one tenant whose
  -- counter starts at 0, at a limit that does not change, and whichever commands throw: the
  -- reservations that were counted and are not released are never more than the limit and the
  -- number of unearned releases together, which are those of reservations that were let
  -- through uncounted since Redis threw or were counted on another day; and the counter is the
  -- number of those reservations, of the refused callers that have not given back yet and of
  -- the increments that a DECR which threw has left, less the number of unearned releases.
  pub quota_never_exceeded :
      {d e : Day}
      → value_of (d.redis key) ≡ pos 0
      → d.granted + d.over + d.lost + d.unearned ≡ 0
      → Reach d e
      → (e.granted ≤ limit + e.unearned)
        × (plus_ℤ e.unearned (value_of (e.redis key)) ≡ pos (e.granted + e.over + e.lost))
  unfolding plus_ℤ
  quota_never_exceeded {d} z none r =
      let start : plus_ℤ 0 (value_of (d.redis key)) ≡ pos (d.granted + d.over + d.lost) =
        z ∙ ap pos (omega arith) in
      let no_release : 0 ≡ d.unearned = omega (arith, none) in
      let v =
        Reach-IsCounted
          (record {
            counted = ap (λ n. plus_ℤ n (value_of (d.redis key))) (sym no_release) ∙ start;
            bounded = omega (arith, none);
          })
          r in
      (v.bounded, v.counted)
