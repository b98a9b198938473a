-- ===== src/Base/Rows.antt =====
-- A table is the list of its rows: SELECT ... WHERE and UPDATE ... WHERE over it.
use Prim.Native.Nat.{ℕ, suc, ◌≤◌}
use mathlib.Core.Path.{◌≡◌, refl, ap, sym, ◌∙◌}
use mathlib.Core.Logic.{inl, inr}
use mathlib.Core.Bool.{Bool, true, false}
use mathlib.Core.Option.{Option, none, some}
use mathlib.Core.List.{List, [], ◌∷◌, ◌++◌, map, Memᴰ}
use native.Mathlib.Omega.{arith}
use feedpulse.Base.Tests.{if◌then◌else◌, Bool-cases}
use feedpulse.Base.Lists.{length, All}

module _ {ℓ} {A : Type ℓ} where
  unfoldable pub select : (A → Bool) → List A → List A
  select p [] = []
  select p (r ∷ rs) = let rest = select p rs in if p r then r ∷ rest else rest

  unfoldable pub update : (A → Bool) → (A → A) → List A → List A
  update p f [] = []
  update p f (r ∷ rs) = (if p r then f r else r) ∷ update p f rs

  -- The first row that a query by key returns.
  unfoldable pub find : (A → Bool) → List A → Option A
  find p [] = none
  find p (r ∷ rs) = let rest = find p rs in if p r then some r else rest

  -- How many rows satisfy a test: COUNT(*) ... WHERE.
  unfoldable pub count : (A → Bool) → List A → ℕ
  count p [] = 0
  count p (r ∷ rs) = let rest = count p rs in if p r then suc rest else rest

module _ {ℓ} {A : Type ℓ} (p : A → Bool) where
  pub length-select : (rs : List A) → length (select p rs) ≡ count p rs
  unfolding select count
  length-select [] = refl
  length-select (r ∷ rs) = elim (Bool-cases (p r)) [
    | inl e ↦ rw e (ap suc (length-select rs))
    | inr e ↦ rw e (length-select rs)
  ]

  pub length-update : (f : A → A) (rs : List A) → length (update p f rs) ≡ length rs
  unfolding update
  length-update f [] = refl
  length-update f (r ∷ rs) = ap suc (length-update f rs)

  -- The rows of `xs` that are rows of `rs` and pass the test, when a row that passes is put in front.
  mem-select_cons :
      {x r : A} {rs xs : List A}
      → p r ≡ true
      → (Memᴰ x xs → Memᴰ x rs × (p x ≡ true))
      → Memᴰ x (r ∷ xs)
      → Memᴰ x (r ∷ rs) × (p x ≡ true)
  mem-select_cons e ih (Memᴰ.head k) = (Memᴰ.head k, ap p k ∙ e)
  mem-select_cons e ih (Memᴰ.tail n) = let (n', h) = ih n in (Memᴰ.tail n', h)

  pub mem-select : {x : A} (rs : List A) → Memᴰ x (select p rs) → Memᴰ x rs × (p x ≡ true)
  unfolding select
  mem-select [] m = elim m [ ]
  mem-select {x} (r ∷ rs) m = elim (Bool-cases (p r)) [
    | inr e ↦ let (n, h) = mem-select rs (rw (e, select) at m) in (Memᴰ.tail n, h)
    | inl e ↦ mem-select_cons e (λ n. mem-select rs n) (rw (e, select) at m)
  ]

  pub mem-select_of : {x : A} (rs : List A) → Memᴰ x rs → p x ≡ true → Memᴰ x (select p rs)
  unfolding select
  mem-select_of [] m h = elim m [ ]
  mem-select_of (r ∷ rs) (Memᴰ.head k) h = rw (sym (ap p k) ∙ h) (Memᴰ.head k)
  mem-select_of (r ∷ rs) (Memᴰ.tail m) h = elim (Bool-cases (p r)) [
    | inl e ↦ rw e (Memᴰ.tail (mem-select_of rs m h))
    | inr e ↦ rw e (mem-select_of rs m h)
  ]

  pub count-eq-zero : (rs : List A) → All (λ r. p r ≡ false) rs → count p rs ≡ 0
  unfolding count
  count-eq-zero [] h = refl
  count-eq-zero (r ∷ rs) h = rw h.0 (count-eq-zero rs h.1)

  pub count-le-length : (rs : List A) → count p rs ≤ length rs
  unfolding count
  count-le-length [] = omega arith
  count-le-length (r ∷ rs) = ground (arith, count-le-length rs)

module _ {ℓ} {A : Type ℓ} (p : A → Bool) where
  -- A lookup returns a row of the table that passes the test, and finds one if there is one.
  pub find-mem : {y : A} (rs : List A) → find p rs ≡ some y → Memᴰ y rs × (p y ≡ true)
  unfolding find
  find-mem [] e = cc
  find-mem {y} (r ∷ rs) e = elim (Bool-cases (p r)) [
    | inl h ↦ let same : r ≡ y = ground arith in (Memᴰ.head (sym same), ap p (sym same) ∙ h)
    | inr h ↦ let (m, k) = find-mem rs (ground arith) in (Memᴰ.tail m, k)
  ]

  pub find_of_mem : {x : A} (rs : List A) → Memᴰ x rs → p x ≡ true → (y : A) × (find p rs ≡ some y)
  unfolding find
  find_of_mem [] m h = elim m [ ]
  find_of_mem (r ∷ rs) (Memᴰ.head e) h = (r, rw (sym (ap p e) ∙ h) refl)
  find_of_mem (r ∷ rs) (Memᴰ.tail m) h = elim (Bool-cases (p r)) [
    | inl k ↦ (r, rw k refl)
    | inr k ↦ let (y, e) = find_of_mem rs m h in (y, rw k e)
  ]

  pub find-append : (xs ys : List A) (r : A) → find p xs ≡ some r → find p (xs ++ ys) ≡ some r
  unfolding find
  find-append [] ys r e = cc
  find-append (x ∷ xs) ys r e = elim (Bool-cases (p x)) [
    | inl k ↦ rw k (rw k at e)
    | inr k ↦ rw k (find-append xs ys r (rw k at e))
  ]

module _ {ℓ κ} {A : Type ℓ} (P : A → Type κ) (p : A → Bool) (f : A → A) where
  -- What an UPDATE establishes on the rows that it hits, and keeps on the others.
  pub All-update :
      (rs : List A) → All P rs → ((r : A) → P r → p r ≡ true → P (f r)) → All P (update p f rs)
  unfolding update
  All-update [] h k = tt
  All-update (r ∷ rs) h k = elim (Bool-cases (p r)) [
    | inl e ↦ rw e (k r h.0 e, All-update rs h.1 k)
    | inr e ↦ rw e (h.0, All-update rs h.1 k)
  ]

module _ {ℓ} {A : Type ℓ} (p : A → Bool) (f : A → A) where
  -- Every row of the new table comes from a row of the old one.
  pub mem-update :
      {x : A} (rs : List A)
      → Memᴰ x (update p f rs)
      → (r : A) × Memᴰ r rs × (x ≡ (if p r then f r else r))
  unfolding update
  mem-update [] m = elim m [ ]
  mem-update (r ∷ rs) (Memᴰ.head e) = (r, Memᴰ.head refl, e)
  mem-update (r ∷ rs) (Memᴰ.tail m) = let (r', m', e) = mem-update rs m in (r', Memᴰ.tail m', e)

  pub mem-update_of :
      {r : A} (rs : List A) → Memᴰ r rs → Memᴰ (if p r then f r else r) (update p f rs)
  unfolding update
  mem-update_of [] m = elim m [ ]
  mem-update_of (s ∷ rs) (Memᴰ.head e) = Memᴰ.head (ap (λ a. if p a then f a else a) e)
  mem-update_of (s ∷ rs) (Memᴰ.tail m) = Memᴰ.tail (mem-update_of rs m)

  -- An UPDATE leaves alone a column that its SET clause does not name.
  pub map-update {κ} :
      {B : Type κ} (g : A → B) (rs : List A)
      → ((r : A) → g (f r) ≡ g r)
      → map g (update p f rs) ≡ map g rs
  unfolding update
  map-update g [] h = refl
  map-update g (r ∷ rs) h = elim (Bool-cases (p r)) [
    | inl e ↦ rw (e, h r, map-update g rs h) refl
    | inr e ↦ rw (e, map-update g rs h) refl
  ]
