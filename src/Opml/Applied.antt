-- ===== src/Opml/Applied.antt =====
-- What one item of the apply job leaves: the indexes of the `feeds` table, and the new items.
use feedpulse.Base.{
  ℕ, suc, ◌<◌, ◌≡◌, sym, ap, ◌∙◌, subst, ◌≢◌, Bool, true, false, List, [], ◌∷◌, ◌++◌, ◌==◌, ==_iff,
  String, any, update, Memᴰ, All, All-imp, All-append, All-of_mem, none_of_not_any, mem-update,
  Bool-cases, inl, inr, arith, ◌&&◌,
}
use mathlib.Core.Bool.{false≢true}
use feedpulse.Feeds.Row.{FeedRow}
use feedpulse.Feeds.Keys.{HasKey}
use feedpulse.Feeds.Editing.{collides}
use feedpulse.Feeds.Registration.{AreApart, IsUnique, IsUnique-snoc, HasKey-snoc}
use feedpulse.Opml.Tables.{ItemRow, new, same_item_status, mark_item_imported, mark_item_failed}

-- The `feeds` table has its key and its unique indexes, and the sequence is ahead of its ids.
pub record IsReady (feeds : List FeedRow) (next_id : ℕ) : Type 0 where
  pub key : HasKey feeds
  pub unique : IsUnique feeds
  pub fresh : All (λ r. r.id < next_id) feeds

pub IsReady-later :
    (feeds : List FeedRow) (next_id : ℕ) → IsReady feeds next_id → IsReady feeds (suc next_id)
IsReady-later feeds next_id h = record {
  key = h.key;
  unique = h.unique;
  fresh =
      All-imp (λ r. r.id < next_id) (λ r. r.id < suc next_id) (λ r k. omega arith) feeds h.fresh;
}

-- An insert that violates no index.
pub IsReady-snoc :
    (feeds : List FeedRow) (row : FeedRow)
    → IsReady feeds row.id
    → any (collides row.tenant_id row.url row.normalized_url_hash) feeds ≡ false
    → IsReady (feeds ++ row ∷ []) (suc row.id)
IsReady-snoc feeds row h apart = record {
  key = HasKey-snoc feeds row h.key (
      All-imp (λ r. r.id < row.id) (λ r. r.id ≢ row.id) (λ r k e. absurd (omega arith)) feeds
        h.fresh);
  unique = IsUnique-snoc feeds row h.unique (
      All-of_mem (AreApart row) feeds
        (none_of_not_any (collides row.tenant_id row.url row.normalized_url_hash) feeds apart));
  fresh =
      All-append (λ r. r.id < suc row.id) feeds (row ∷ []) (IsReady-later feeds row.id h).fresh
        (omega arith, tt);
}

-- A new item of the import.
abbrev pub is_candidate : ℕ → ItemRow → Bool
is_candidate import_id x = (x.import_id == import_id) && same_item_status x.item_status new

-- Every new item of the import is among these ids.
abbrev pub Pending : ℕ → List ℕ → List ItemRow → Type 0
Pending import_id ids items =
    (x : ItemRow) → Memᴰ x items → is_candidate import_id x ≡ true → Memᴰ x.id ids

not_head : {k m : ℕ} (ids : List ℕ) → k ≢ m → Memᴰ k (m ∷ ids) → Memᴰ k ids
not_head ids ne (Memᴰ.head e) = absurd (ne e)
not_head ids ne (Memᴰ.tail n) = n

-- A mark that takes an item out of the new ones settles its id.
Pending-mark :
    (import_id item_id : ℕ) (ids : List ℕ) (f : ItemRow → ItemRow) (items : List ItemRow)
    → ((r : ItemRow) → is_candidate import_id (f r) ≡ false)
    → Pending import_id (item_id ∷ ids) items
    → Pending import_id ids (update (λ r. r.id == item_id) f items)
Pending-mark import_id item_id ids f items settled h x m new_item =
    let (r, n, e) = mem-update (λ r. r.id == item_id) f items m in
    elim (Bool-cases (r.id == item_id)) [
      | inl k ↦
          let marked : x ≡ f r = rw k at e in
          absurd
            (false≢true (sym (settled r) ∙ ap (is_candidate import_id) (sym marked) ∙ new_item))
      | inr k ↦
          let kept : x ≡ r = rw k at e in
          not_head ids
            (λ q. false≢true (sym k ∙ (==_iff r.id item_id).1 (ap (λ y. y.id) (sym kept) ∙ q)))
            (h x (subst (λ y. Memᴰ y items) (sym kept) n) new_item)
    ]

pub mark_imported-Pending :
    (import_id item_id feed_id : ℕ) (ids : List ℕ) (items : List ItemRow)
    → Pending import_id (item_id ∷ ids) items
    → Pending import_id ids (mark_item_imported item_id feed_id items)
unfolding mark_item_imported
mark_imported-Pending import_id item_id feed_id ids items =
    Pending-mark import_id item_id ids _ items (λ r. ground arith)

pub mark_failed-Pending :
    (import_id item_id : ℕ) (error : String) (ids : List ℕ) (items : List ItemRow)
    → Pending import_id (item_id ∷ ids) items
    → Pending import_id ids (mark_item_failed item_id error items)
unfolding mark_item_failed
mark_failed-Pending import_id item_id error ids items =
    Pending-mark import_id item_id ids _ items (λ r. ground arith)
