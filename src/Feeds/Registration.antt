-- ===== src/Feeds/Registration.antt =====
-- A feed that is registered: the unique indexes of the table, and the lookup of what was inserted.
use feedpulse.Base.{
  ℕ, ◌≡◌, refl, sym, ap, ◌∙◌, ◌≢◌, inl, inr, true, false, Option, none, some, String, List, [], ◌∷◌,
  ◌++◌, Memᴰ, All, All-of_mem, All-append, Bool-cases, any, none_of_not_any, any-mem, conflict, ◌⊎◌,
  find, str_eq, eq_iff, ok, err, ◌==◌, ==_iff, &&-eq-true, ◌||◌, arith,
}
use mathlib.Core.Bool.{false≢true}
use mathlib.Core.Option
use feedpulse.Feeds.Row.{FeedStatus, FeedRow, map_feed}
use feedpulse.Feeds.Editing.{inserted_row, same_hash, collides, create, find_by_id_for_worker}
use feedpulse.Feeds.Keys.{HasKey}

str_eq_comm : (a b : String) → str_eq a b ≡ str_eq b a
str_eq_comm a b = elim (Bool-cases (str_eq a b)) [
  | inl e ↦ let same : a ≡ b = (eq_iff a b).0 e in rw same refl
  | inr e ↦ elim (Bool-cases (str_eq b a)) [
    | inl f ↦ absurd (false≢true (sym e ∙ (eq_iff a b).1 (sym ((eq_iff b a).0 f))))
    | inr f ↦ e ∙ sym f
  ]
]

same_hash_comm : (a b : Option String) → same_hash a b ≡ same_hash b a
same_hash_comm none none = refl
same_hash_comm none (some b) = refl
same_hash_comm (some a) none = refl
same_hash_comm (some a) (some b) = str_eq_comm a b

-- The two rows do not violate a unique index.
abbrev pub AreApart : FeedRow → FeedRow → Type 0
AreApart r s = collides r.tenant_id r.url r.normalized_url_hash s ≡ false

-- The unique indexes hold.
abbrev pub IsUnique : List FeedRow → Type 0
IsUnique [] = Unit {0}
IsUnique (r ∷ rows) = All (AreApart r) rows × IsUnique rows

collides_comm :
    (r s : FeedRow)
    → collides r.tenant_id r.url r.normalized_url_hash s
      ≡ collides s.tenant_id s.url s.normalized_url_hash r
unfolding collides
collides_comm r s =
    rw
      (
        str_eq_comm s.tenant_id r.tenant_id,
        str_eq_comm s.url r.url,
        same_hash_comm s.normalized_url_hash r.normalized_url_hash,
      )
      refl

pub IsUnique-snoc :
    (rows : List FeedRow) (new : FeedRow)
    → IsUnique rows
    → All (AreApart new) rows
    → IsUnique (rows ++ new ∷ [])
IsUnique-snoc [] new u h = (tt, tt)
IsUnique-snoc (r ∷ rows) new u h = (
  All-append (AreApart r) rows _ u.0 (collides_comm r new ∙ h.0, tt),
  IsUnique-snoc rows new u.1 h.1,
)

pub HasKey-snoc :
    (rows : List FeedRow) (new : FeedRow)
    → HasKey rows
    → All (λ r. r.id ≢ new.id) rows
    → HasKey (rows ++ new ∷ [])
HasKey-snoc [] new k h = (tt, tt)
HasKey-snoc (r ∷ rows) new k h =
    (All-append (λ s. r.id ≢ s.id) rows _ k.0 (h.0, tt), HasKey-snoc rows new k.1 h.1)

find-snoc :
    (rows : List FeedRow) (new : FeedRow)
    → All (λ r. r.id ≢ new.id) rows
    → find (λ r. r.id == new.id) (rows ++ new ∷ []) ≡ some new
unfolding find
find-snoc [] new h = rw ((==_iff new.id new.id).1 refl) refl
find-snoc (r ∷ rows) new h = elim (Bool-cases (r.id == new.id)) [
  | inl e ↦ absurd (h.0 ((==_iff r.id new.id).0 e))
  | inr e ↦ rw e (find-snoc rows new h.1)
]

module _ (hash : String → Option String) (tenant_id url : String) where
  -- A row of the tenant has the url, or has the normalised url of it, of which both have a hash.
  abbrev pub Taken : List FeedRow → Type 0
  Taken rows =
      (r : FeedRow) × Memᴰ r rows
      × (r.tenant_id ≡ tenant_id)
      × ((r.url ≡ url) ⊎ ((h : String) × (hash url ≡ some h) × (r.normalized_url_hash ≡ some h)))

  -- The row that a registration at a time adds.
  abbrev pub IsRegistered : ℕ → ℕ → ℕ → FeedStatus → FeedRow → Type 0
  IsRegistered id now poll status r =
      (r.id ≡ id)
      × (r.tenant_id ≡ tenant_id)
      × (r.url ≡ url)
      × (r.normalized_url_hash ≡ hash url)
      × (r.poll_interval_seconds ≡ poll)
      × (r.status ≡ status)
      × (r.next_check_at ≡ now)

  collides-Taken :
      (rows : List FeedRow) → any (collides tenant_id url (hash url)) rows ≡ true → Taken rows
  unfolding collides
  collides-Taken rows e =
      let (r, m, k) = any-mem (collides tenant_id url (hash url)) rows e in
      let (t, c) =
        &&-eq-true (str_eq r.tenant_id tenant_id)
          (str_eq r.url url || same_hash r.normalized_url_hash (hash url)) k in
      (
        r,
        m,
        (eq_iff r.tenant_id tenant_id).0 t,
        elim (Bool-cases (str_eq r.url url)) [
          | inl same ↦ inl ((eq_iff r.url url).0 same)
          | inr other ↦ inr (shared r.normalized_url_hash (hash url) (sym (rw other refl) ∙ c))
        ],
      )
    where
      shared :
          (a b : Option String) → same_hash a b ≡ true → (h : String) × (b ≡ some h) × (a ≡ some h)
      shared none b h = absurd (false≢true h)
      shared (some a) none h = absurd (false≢true h)
      shared (some a) (some b) h = (b, refl, ap some ((eq_iff a b).0 h))

  not-Taken :
      (rows : List FeedRow) → any (collides tenant_id url (hash url)) rows ≡ false → ¬ Taken rows
  unfolding collides
  not-Taken rows e (r, m, t, taken) = false≢true (
      sym (none_of_not_any (collides tenant_id url (hash url)) rows e r m)
      ∙ rw ((eq_iff r.tenant_id tenant_id).1 t) (clash taken))
    where
      clash :
          (r.url ≡ url) ⊎ ((h : String) × (hash url ≡ some h) × (r.normalized_url_hash ≡ some h))
          → (str_eq r.url url || same_hash r.normalized_url_hash (hash url)) ≡ true
      clash (inl same) = rw ((eq_iff r.url url).1 same) refl
      clash (inr (h, e, f)) = rw (e, f, (eq_iff h h).1 refl) (grind arith)

-- Registering a feed under a fresh id, on a table whose key and unique indexes hold: either it
-- is refused as a conflict, and then a row of the same tenant has its url or the hash of its
-- normalised url; or no row of the tenant has either, and the table is extended by one row with
-- the tenant, the url, the hash, the interval and the status of the request, due at once, under
-- which the key and the indexes still hold, and which the lookup by the id finds as the feed
-- that is returned.
pub create_lem :
    (hash : String → Option String) (id now : ℕ) (tenant_id url : String) (poll : ℕ)
    (status : FeedStatus) (rows : List FeedRow)
    → HasKey rows
    → IsUnique rows
    → All (λ r. r.id ≢ id) rows
    → ((create hash id now tenant_id url poll status rows ≡ err (conflict "feed_already_exists"))
        × Taken hash tenant_id url rows)
      ⊎ ((r : FeedRow) × (create hash id now tenant_id url poll status rows
            ≡ ok (rows ++ r ∷ [], map_feed r))
          × (¬ Taken hash tenant_id url rows)
          × IsRegistered hash tenant_id url id now poll status r
          × HasKey (rows ++ r ∷ [])
          × IsUnique (rows ++ r ∷ [])
          × (find_by_id_for_worker id (rows ++ r ∷ []) ≡ some (map_feed r)))
unfolding create find_by_id_for_worker
create_lem hash id now tenant_id url poll status rows key unique fresh =
    let new = inserted_row id now tenant_id url (hash url) poll status in
    elim (Bool-cases (any (collides tenant_id url (hash url)) rows)) [
      | inl e ↦ inl (rw e refl, collides-Taken hash tenant_id url rows e)
      | inr e ↦ inr (
        new,
        rw e refl,
        not-Taken hash tenant_id url rows e,
        (refl, refl, refl, refl, refl, refl, refl),
        HasKey-snoc rows new key fresh,
        IsUnique-snoc rows new unique (
            All-of_mem (AreApart new) rows
              (none_of_not_any (collides tenant_id url (hash url)) rows e)),
        ap (Option.map map_feed) (find-snoc rows new fresh),
      )
    ]
