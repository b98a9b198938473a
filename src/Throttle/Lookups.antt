-- ===== src/Throttle/Lookups.antt =====
-- Lookups in a table whose rows are filtered and extended, as the windows of
-- shared/http/throttler.module.ts are.
use feedpulse.Base.{
  ◌≡◌, refl, sym, ap, ◌∙◌, Bool, true, false, ◌&&◌, some, List, [], ◌∷◌, ◌++◌, inl, inr, select,
  find, any, Bool-cases, arith,
}

module _ {ℓ} {A : Type ℓ} (p q : A → Bool) where
  pub find-select :
      (rows : List A) (r : A) → find p rows ≡ some r → q r ≡ true → find p (select q rows) ≡ some r
  unfolding find select
  find-select [] r e h = cc
  find-select (x ∷ rows) r e h = elim (Bool-cases (p x)) [
    | inl k ↦ let same : x ≡ r = cc (rw k at e) in rw (same, h) (rw (ap p (sym same) ∙ k) refl)
    | inr k ↦ elim (Bool-cases (q x)) [
      | inl l ↦ rw l (rw k (find-select rows r (rw k at e) h))
      | inr l ↦ rw l (find-select rows r (rw k at e) h)
    ]
  ]

  -- No row passes both tests: behind the rows that pass one, a new row is found.
  pub find-new :
      (rows : List A) (r : A)
      → any (λ x. p x && q x) rows ≡ false
      → p r ≡ true
      → find p (select q rows ++ r ∷ []) ≡ some r
  unfolding find select any
  find-new [] r h e = rw e refl
  find-new (x ∷ rows) r h e = elim (Bool-cases (q x)) [
    | inr l ↦ rw l (find-new rows r (ground arith) e)
    | inl l ↦ elim (Bool-cases (p x)) [
      | inl k ↦ cc (rw (k, l) at h)
      | inr k ↦ rw l (rw k (find-new rows r (rw k at h) e))
    ]
  ]
