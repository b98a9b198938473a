-- ===== src/Base/Keys.antt =====
-- Rows with pairwise different keys: the primary key of a table.
use Prim.Native.Nat.{ℕ, zero, suc, ◌+◌}
use mathlib.Core.Path.{◌≡◌, refl, ap, sym, ◌∙◌}
use mathlib.Core.Logic.{inl, inr, ◌≢◌}
use mathlib.Core.Bool.{Bool, true, false, ◌||◌}
use mathlib.Core.List.{List, [], ◌∷◌, map, Memᴰ}
use native.Mathlib.Omega.{arith}
use feedpulse.Base.Tests.{if◌then◌else◌, Bool-cases, ◌==◌, ==_iff}
use feedpulse.Base.Lists.{
  length, take, All, All-mem, All-imp, All-map, All-take, All-of_mem, contains,
}
use feedpulse.Base.Rows.{select, update, count, mem-select, All-update, count-eq-zero}
use feedpulse.Base.Sort.{insert_by, sort_by, All-insert_by, All-sort_by}

module _ {ℓ} {A : Type ℓ} (key : A → ℕ) where
  abbrev pub DistinctBy : List A → Type 0
  DistinctBy [] = Unit
  DistinctBy (r ∷ rs) = All (λ s. key r ≢ key s) rs × DistinctBy rs

  -- Two rows of one table with the same key are one row.
  pub eq_of_same_key :
      {x y : A} (rs : List A) → DistinctBy rs → Memᴰ x rs → Memᴰ y rs → key x ≡ key y → x ≡ y
  eq_of_same_key [] d m n k = elim m [ ]
  eq_of_same_key (r ∷ rs) d (Memᴰ.head e) (Memᴰ.head f) k = e ∙ sym f
  eq_of_same_key (r ∷ rs) d (Memᴰ.head e) (Memᴰ.tail m) k =
      absurd (All-mem (λ s. key r ≢ key s) rs d.0 m (sym (ap key e) ∙ k))
  eq_of_same_key (r ∷ rs) d (Memᴰ.tail m) (Memᴰ.head f) k =
      absurd (All-mem (λ s. key r ≢ key s) rs d.0 m (sym (ap key f) ∙ sym k))
  eq_of_same_key (r ∷ rs) d (Memᴰ.tail m) (Memᴰ.tail n) k = eq_of_same_key rs d.1 m n k

  pub DistinctBy-select : (p : A → Bool) (rs : List A) → DistinctBy rs → DistinctBy (select p rs)
  unfolding select
  DistinctBy-select p [] d = tt
  DistinctBy-select p (r ∷ rs) d = elim (Bool-cases (p r)) [
    | inr e ↦ rw e (DistinctBy-select p rs d.1)
    | inl e ↦ rw e (
      All-of_mem _ _ (λ s m. All-mem (λ s. key r ≢ key s) rs d.0 (mem-select p rs m).0),
      DistinctBy-select p rs d.1,
    )
  ]

  DistinctBy-insert_by :
      (le : A → A → Bool) (x : A) (ys : List A)
      → All (λ y. key x ≢ key y) ys
      → DistinctBy ys
      → DistinctBy (insert_by le x ys)
  unfolding insert_by
  DistinctBy-insert_by le x [] h d = (tt, tt)
  DistinctBy-insert_by le x (y ∷ ys) h d = elim (Bool-cases (le x y)) [
    | inl e ↦ rw e (h, d)
    | inr e ↦ rw e (
      All-insert_by le (λ s. key y ≢ key s) x ys (λ q. h.0 (sym q)) d.0,
      DistinctBy-insert_by le x ys h.1 d.1,
    )
  ]

  pub DistinctBy-sort_by :
      (le : A → A → Bool) (xs : List A) → DistinctBy xs → DistinctBy (sort_by le xs)
  unfolding sort_by
  DistinctBy-sort_by le [] d = tt
  DistinctBy-sort_by le (x ∷ xs) d =
      DistinctBy-insert_by le x (sort_by le xs) (All-sort_by le (λ y. key x ≢ key y) xs d.0)
        (DistinctBy-sort_by le xs d.1)

  pub DistinctBy-take : (n : ℕ) (xs : List A) → DistinctBy xs → DistinctBy (take n xs)
  DistinctBy-take zero xs d = tt
  DistinctBy-take (suc n) [] d = tt
  DistinctBy-take (suc n) (x ∷ xs) d = (All-take _ n xs d.0, DistinctBy-take n xs d.1)

  -- An UPDATE that leaves the key alone keeps the keys different.
  pub DistinctBy-update :
      (p : A → Bool) (f : A → A) (rs : List A)
      → ((r : A) → key (f r) ≡ key r)
      → DistinctBy rs
      → DistinctBy (update p f rs)
  unfolding update
  DistinctBy-update p f [] h d = tt
  DistinctBy-update p f (r ∷ rs) h d = (
    All-update (λ s. key (if p r then f r else r) ≢ key s) p f rs
        (All-imp (λ s. key r ≢ key s) _ (λ s q e. q (sym (kept r) ∙ e)) rs d.0)
        (λ s q _ e. q (e ∙ h s)),
    DistinctBy-update p f rs h d.1,
  )
    where
      kept : (a : A) → key (if p a then f a else a) ≡ key a
      kept a = elim (Bool-cases (p a)) [ inl e ↦ rw e (h a) | inr e ↦ rw e refl ]

abbrev pub Distinct : List ℕ → Type 0
Distinct = DistinctBy λ n. n

module _ {ℓ} {A : Type ℓ} (key : A → ℕ) where
  pub Distinct-map : (rs : List A) → DistinctBy key rs → Distinct (map key rs)
  Distinct-map [] d = tt
  Distinct-map (r ∷ rs) d = (All-map (λ m. key r ≢ m) key rs d.0, Distinct-map rs d.1)

  ne_of_mem :
      {r : A} {k : ℕ} (ss : List A) → All (λ s. key r ≢ key s) ss → Memᴰ k (map key ss) → key r ≢ k
  ne_of_mem [] h m e = elim m [ ]
  ne_of_mem (s ∷ ss) h (Memᴰ.head f) e = h.0 (e ∙ f)
  ne_of_mem (s ∷ ss) h (Memᴰ.tail n) e = ne_of_mem ss h.1 n e

  -- A key that is in the table is there once.
  count-key :
      (k : ℕ) (rs : List A)
      → DistinctBy key rs
      → Memᴰ k (map key rs)
      → count (λ r. key r == k) rs ≡ 1
  unfolding count
  count-key k [] d m = elim m [ ]
  count-key k (r ∷ rs) d (Memᴰ.head e) = rw ((==_iff (key r) k).1 (sym e)) (
      ap suc (
        count-eq-zero (λ s. key s == k) rs
          (All-imp (λ s. key r ≢ key s) _ (λ s q. ground arith) rs d.0)))
  count-key k (r ∷ rs) d (Memᴰ.tail m) = elim (Bool-cases (key r == k)) [
    | inr e ↦ rw e (count-key k rs d.1 m)
    | inl e ↦ absurd (ne_of_mem rs d.0 m ((==_iff (key r) k).0 e))
  ]

  count-or :
      (p q : A → Bool)
      → ((r : A) → p r ≡ true → q r ≡ false)
      → (rs : List A) → count (λ r. p r || q r) rs ≡ count p rs + count q rs
  unfolding count
  count-or p q h [] = omega arith
  count-or p q h (r ∷ rs) = elim (Bool-cases (p r)) [
    | inl e ↦ rw (e, h r e) (omega (arith, count-or p q h rs))
    | inr e ↦ elim (Bool-cases (q r)) [
      | inl f ↦ rw (e, f) (omega (arith, count-or p q h rs))
      | inr f ↦ rw (e, f) (omega (arith, count-or p q h rs))
    ]
  ]

  contains-absent : (b : ℕ) (bs : List ℕ) → All (λ m. b ≢ m) bs → contains b bs ≡ false
  unfolding contains
  contains-absent b [] h = refl
  contains-absent b (m ∷ bs) h = ground (arith, contains-absent b bs h.1)

  contains-nil : (rs : List A) → count (λ r. contains (key r) []) rs ≡ 0
  unfolding count contains
  contains-nil [] = refl
  contains-nil (r ∷ rs) = contains-nil rs

  contains-cons :
      (b : ℕ) (bs : List ℕ) (rs : List A)
      → count (λ r. contains (key r) (b ∷ bs)) rs
        ≡ count (λ r. (key r == b) || contains (key r) bs) rs
  unfolding count contains
  contains-cons b bs rs = refl

  -- `WHERE id IN (...)` hits exactly as many rows as there are ids, if the ids are different and
  -- each is a row's.
  pub count-contains :
      (bs : List ℕ) (rs : List A)
      → DistinctBy key rs
      → Distinct bs
      → All (λ b. Memᴰ b (map key rs)) bs
      → count (λ r. contains (key r) bs) rs ≡ length bs
  count-contains [] rs d e h = contains-nil rs
  count-contains (b ∷ bs) rs d e h =
      contains-cons b bs rs
      ∙ count-or (λ r. key r == b) (λ r. contains (key r) bs)
          (λ r f. rw ((==_iff (key r) b).0 f) (contains-absent b bs e.0)) rs
      ∙ omega (arith, count-key b rs d h.0, count-contains bs rs d e.1 h.1)
