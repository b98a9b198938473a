-- ===== src/Opml/Settling.antt =====
-- What the loop of the apply job makes of the candidates and of the `feeds` table.
use feedpulse.Base.{
  ℕ, suc, ◌+◌, ◌<◌, ◌≡◌, refl, subst, Bool, true, Option, none, some, List, [], ◌∷◌, String, any,
  str_eq, Option-cases, select, length, map, Memᴰ, All, mem-select_of, mem-map, Bool-cases, inl,
  inr, arith, Result, ok, err,
}
use mathlib.Core.Option.{some-injective}
use feedpulse.Feeds.Row.{FeedRow}
use feedpulse.Feeds.Keys.{HasKey}
use feedpulse.Feeds.Editing.{collides}
use feedpulse.Feeds.Registration.{IsUnique}
use feedpulse.Opml.Urls.{UrlPlatform, build_normalized_feed_url_hash}
use feedpulse.Opml.Tables.{ItemRow, list_new_candidate_items}
use feedpulse.Opml.Apply.{
  Upserted, created, found, collision, threw, imported_feed, upsert_feed, same_url, upsert_existing,
  Progress, fail_item, record_upsert, apply_item, apply_items,
}
use feedpulse.Opml.Applied.{
  IsReady, IsReady-later, IsReady-snoc, Pending, is_candidate, mark_imported-Pending,
  mark_failed-Pending,
}

-- What an upsert leaves of the table, with its id used up.
abbrev UpsertIsReady : ℕ → Upserted → Type 0
UpsertIsReady next_id (created feeds) = IsReady feeds (suc next_id)
UpsertIsReady next_id (found feed_id) = Unit {0}
UpsertIsReady next_id collision = Unit {0}
UpsertIsReady next_id (threw error) = Unit {0}

same_url-IsReady :
    (next_id : ℕ) (url : String) (feed_id : ℕ) (existing : Result String)
    → UpsertIsReady next_id (same_url url feed_id existing)
same_url-IsReady next_id url feed_id (err e) = tt
same_url-IsReady next_id url feed_id (ok existing_url) =
    elim (Bool-cases (str_eq existing_url url)) [ inl e ↦ rw e tt | inr e ↦ rw e tt ]

upsert_existing-IsReady :
    (p : UrlPlatform) (allow : Bool) (next_id : ℕ) (url : String) (feed : Option FeedRow)
    → UpsertIsReady next_id (upsert_existing p allow url feed)
upsert_existing-IsReady p allow next_id url none = tt
upsert_existing-IsReady p allow next_id url (some feed) = same_url-IsReady next_id url feed.id _

upsert-IsReady :
    (p : UrlPlatform) (allow : Bool) (next_id now jitter_seconds : ℕ) (tenant_id url : String)
    (feeds : List FeedRow)
    → IsReady feeds next_id
    → UpsertIsReady next_id (upsert_feed p allow next_id now jitter_seconds tenant_id url feeds)
unfolding upsert_feed
upsert-IsReady p allow next_id now jitter_seconds tenant_id url feeds h =
    let hash = build_normalized_feed_url_hash p url in
    elim (Bool-cases (any (collides tenant_id url (some hash)) feeds)) [
      | inl e ↦ rw e (upsert_existing-IsReady p allow next_id url _)
      | inr e ↦
          rw e
            (IsReady-snoc feeds (imported_feed next_id now jitter_seconds tenant_id url hash) h e)
    ]

-- The state of the loop with these ids to come and so many items done.
record Loop (import_id done : ℕ) (ids : List ℕ) (s : Progress) : Type 0 where
  ready : IsReady s.feeds s.next_feed_id
  pending : Pending import_id ids s.items
  counted : s.imported_items + s.failed_items ≡ done

fail_item-Loop :
    (import_id done : ℕ) (ids : List ℕ) (item_id : ℕ) (error : String) (s : Progress)
    → Loop import_id done (item_id ∷ ids) s
    → Loop import_id (done + 1) ids (fail_item item_id error s)
fail_item-Loop import_id done ids item_id error s h = record {
  ready = h.ready;
  pending = mark_failed-Pending import_id item_id error ids s.items h.pending;
  counted = omega (arith, h.counted);
}

later-Loop :
    (import_id done : ℕ) (ids : List ℕ) (s : Progress)
    → Loop import_id done ids s
    → Loop import_id done ids (record s { next_feed_id = suc s.next_feed_id })
later-Loop import_id done ids s h = record {
  ready = IsReady-later s.feeds s.next_feed_id h.ready;
  pending = h.pending;
  counted = h.counted;
}

record_upsert-Loop :
    (import_id done : ℕ) (ids : List ℕ) (item_id : ℕ) (u : Upserted) (s : Progress)
    → UpsertIsReady s.next_feed_id u
    → Loop import_id done (item_id ∷ ids) s
    → Loop import_id (done + 1) ids (record_upsert item_id u s)
unfolding record_upsert
record_upsert-Loop import_id done ids item_id (created feeds) s ready h = record {
  ready = ready;
  pending = mark_imported-Pending import_id item_id s.next_feed_id ids s.items h.pending;
  counted = omega (arith, h.counted);
}
record_upsert-Loop import_id done ids item_id (found feed_id) s ready h = record {
  ready = IsReady-later s.feeds s.next_feed_id h.ready;
  pending = mark_imported-Pending import_id item_id feed_id ids s.items h.pending;
  counted = omega (arith, h.counted);
}
record_upsert-Loop import_id done ids item_id collision s ready h =
    later-Loop import_id (done + 1) ids _ (fail_item-Loop import_id done ids item_id _ s h)
record_upsert-Loop import_id done ids item_id (threw error) s ready h =
    later-Loop import_id (done + 1) ids _ (fail_item-Loop import_id done ids item_id error s h)

module _ (p : UrlPlatform) (allow : Bool) (now : ℕ) (jitter : ℕ → ℕ) (faults : ℕ → Bool)
    (tenant_id : String) (import_id : ℕ) where
  apply_item-Loop :
      (done : ℕ) (ids : List ℕ) (item_id : ℕ) (url : Option String) (s s' : Progress)
      → Loop import_id done (item_id ∷ ids) s
      → apply_item p allow now jitter faults tenant_id item_id url s ≡ some s'
      → Loop import_id (done + 1) ids s'
  unfolding apply_item
  apply_item-Loop done ids item_id none s s' h e =
      subst (Loop import_id (done + 1) ids) (some-injective _ _ e)
        (fail_item-Loop import_id done ids item_id _ s h)
  apply_item-Loop done ids item_id (some url) s s' h e = elim (Bool-cases (faults item_id)) [
    | inl f ↦ cc (rw f at e)
    | inr f ↦ subst (Loop import_id (done + 1) ids) (some-injective _ _ (rw f at e)) (
        record_upsert-Loop import_id done ids item_id _ s
          (upsert-IsReady p allow s.next_feed_id now (jitter item_id) tenant_id url s.feeds h.ready)
          h)
  ]

  apply_items-Loop :
      (candidates : List ItemRow) (done : ℕ) (s s' : Progress)
      → Loop import_id done (map (λ c. c.id) candidates) s
      → apply_items p allow now jitter faults tenant_id candidates s ≡ some s'
      → Loop import_id (done + length candidates) [] s'
  unfolding apply_items
  apply_items-Loop [] done s s' h e =
      subst (Loop import_id (done + 0) []) (some-injective _ _ e)
        (subst (λ n. Loop import_id n [] s) (omega arith) h)
  apply_items-Loop (c ∷ candidates) done s s' h e =
      let this = apply_item p allow now jitter faults tenant_id c.id c.normalized_url s in
      elim (Option-cases this) [
        | inl k ↦ cc (rw k at e)
        | inr (s1, k) ↦
            subst (λ n. Loop import_id n [] s') (omega arith)
              (apply_items-Loop candidates (done + 1) s1 s'
                (apply_item-Loop done (map (λ c. c.id) candidates) c.id c.normalized_url s s1 h k)
                (rw k at e))
      ]

select_none {ℓ} :
    {A : Type ℓ} (q : A → Bool) (rows : List A)
    → ((x : A) → Memᴰ x rows → q x ≡ true → ⊥)
    → select q rows ≡ []
unfolding select
select_none q [] h = refl
select_none q (r ∷ rows) h = elim (Bool-cases (q r)) [
  | inl e ↦ absurd (h r (Memᴰ.head refl) e)
  | inr e ↦ rw e (select_none q rows (λ x m k. h x (Memᴰ.tail m) k))
]

candidates-Pending :
    (import_id : ℕ) (items : List ItemRow)
    → Pending import_id (map (λ c. c.id) (list_new_candidate_items import_id items)) items
unfolding list_new_candidate_items
candidates-Pending import_id items x m k =
    mem-map (λ c. c.id) _ (mem-select_of (is_candidate import_id) items m k)

-- Where the transaction is not aborted: every candidate counts as imported or as failed, no item of the
-- import is left new, and the `feeds` table has its key and its unique indexes as before.
pub apply_settles :
    (p : UrlPlatform) (allow : Bool) (now : ℕ) (jitter : ℕ → ℕ) (faults : ℕ → Bool)
    (tenant_id : String) (import_id : ℕ) (start s : Progress)
    → HasKey start.feeds
    → IsUnique start.feeds
    → All (λ r. r.id < start.next_feed_id) start.feeds
    → start.imported_items + start.failed_items ≡ 0
    → apply_items p allow now jitter faults tenant_id
        (list_new_candidate_items import_id start.items)
        start
      ≡ some s
    → (s.imported_items + s.failed_items ≡ length (list_new_candidate_items import_id start.items))
      × (list_new_candidate_items import_id s.items ≡ [])
      × HasKey s.feeds
      × IsUnique s.feeds
apply_settles p allow now jitter faults tenant_id import_id start s key unique fresh none_done e =
    let candidates = list_new_candidate_items import_id start.items in
    let ready : IsReady start.feeds start.next_feed_id = record {
      key = key;
      unique = unique;
      fresh = fresh;
    } in
    let first : Loop import_id 0 (map (λ c. c.id) candidates) start = record {
      ready = ready;
      pending = candidates-Pending import_id start.items;
      counted = none_done;
    } in
    let last =
      apply_items-Loop p allow now jitter faults tenant_id import_id candidates 0 start s first e in
    (
      omega (arith, last.counted),
      unfold list_new_candidate_items in
          select_none (is_candidate import_id) s.items (λ x m k. elim (last.pending x m k) [ ]),
      last.ready.key,
      last.ready.unique,
    )
