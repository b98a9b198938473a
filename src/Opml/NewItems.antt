-- ===== src/Opml/NewItems.antt =====
-- What a preview promises of its new items: no other item and no feed of the tenant has their hash.
use feedpulse.Base.{
  ℕ, ◌≡◌, refl, sym, ap, subst, Bool, Option, none, some, List, [], ◌∷◌, String, str_eq, map, All,
  Bool-cases, inl, inr, Result-cases, Result, ok, err,
}
use feedpulse.Feeds.Row.{FeedRow}
use feedpulse.Opml.Urls.{UrlPlatform}
use feedpulse.Opml.Walk.{extract_opml_items}
use feedpulse.Opml.Tables.{
  ItemStatus, new, existing, duplicate, invalid, imported, failed, OpmlImportItemInput,
}
use feedpulse.Opml.Preview.{
  classify_local_item, draft_items, existing_feed, compare_urls, as_existing, as_collision,
  against_feed, check_existing, cons_result, checked_items, preview_items,
}
use feedpulse.Opml.Distinct.{IsNew, Apart, PairwiseApart, draft-Apart}

-- The check against the feeds only takes items out of the new ones, and leaves none with a feed.
abbrev Against : String → List FeedRow → OpmlImportItemInput → OpmlImportItemInput → Type 0
Against tenant_id feeds i i' =
    ((hash : String) → IsNew hash i' → IsNew hash i)
    × ((hash url : String)
        → IsNew hash i'
        → i'.normalized_url ≡ some url
        → existing_feed tenant_id feeds hash ≡ none)

compare_urls-not_new :
    (i i' : OpmlImportItemInput) (url : String) (existing_url : Result String)
    → compare_urls i url existing_url ≡ ok i'
    → i'.item_status ≡ new
    → ⊥
compare_urls-not_new i i' url (err e) h n = cc
compare_urls-not_new i i' url (ok existing_url) h n = elim (Bool-cases (str_eq existing_url url)) [
  | inl e ↦ let same : as_existing i ≡ i' = cc (rw e at h) in cc (ap (λ x. x.item_status) same)
  | inr e ↦ let same : as_collision i ≡ i' = cc (rw e at h) in cc (ap (λ x. x.item_status) same)
]

-- An item that is left as it is.
left_alone :
    (tenant_id : String) (feeds : List FeedRow) (i i' : OpmlImportItemInput)
    → ((hash url : String)
        → IsNew hash i
        → i.normalized_url ≡ some url
        → existing_feed tenant_id feeds hash ≡ none)
    → ok i ≡ ok i'
    → Against tenant_id feeds i i'
left_alone tenant_id feeds i i' h e =
    let same : i ≡ i' = cc in subst (Against tenant_id feeds i) same (λ q n. n, h)

module _ (p : UrlPlatform) (allow : Bool) (tenant_id : String) (feeds : List FeedRow) where
  against_feed-Against :
      (i i' : OpmlImportItemInput) (hash url : String) (feed : Option FeedRow)
      → i.normalized_url_hash ≡ some hash
      → existing_feed tenant_id feeds hash ≡ feed
      → against_feed p allow i url feed ≡ ok i'
      → Against tenant_id feeds i i'
  unfolding against_feed
  against_feed-Against i i' hash url none f k h =
      left_alone tenant_id feeds i i'
        (λ q u n _.
          let same : hash ≡ q = cc (n.1) in
          subst (λ x. existing_feed tenant_id feeds x ≡ none) same k)
        h
  against_feed-Against i i' hash url (some feed) f k h = (
    λ q n. absurd (compare_urls-not_new i i' url _ h n.0),
    λ q u n _. absurd (compare_urls-not_new i i' url _ h n.0),
  )

  check_existing-Against :
      (i i' : OpmlImportItemInput) (status : ItemStatus) (hash url : Option String)
      → i.item_status ≡ status
      → i.normalized_url_hash ≡ hash
      → i.normalized_url ≡ url
      → check_existing p allow tenant_id feeds i status hash url ≡ ok i'
      → Against tenant_id feeds i i'
  unfolding check_existing
  check_existing-Against i i' new (some hash) (some url) e f g h =
      against_feed-Against i i' hash url _ f refl h
  check_existing-Against i i' new (some hash) none e f g h =
      left_alone tenant_id feeds i i' (λ q u n k. cc) h
  check_existing-Against i i' new none url e f g h =
      left_alone tenant_id feeds i i' (λ q u n k. cc (n.1)) h
  check_existing-Against i i' existing hash url e f g h =
      left_alone tenant_id feeds i i' (λ q u n k. cc (n.0)) h
  check_existing-Against i i' duplicate hash url e f g h =
      left_alone tenant_id feeds i i' (λ q u n k. cc (n.0)) h
  check_existing-Against i i' invalid hash url e f g h =
      left_alone tenant_id feeds i i' (λ q u n k. cc (n.0)) h
  check_existing-Against i i' imported hash url e f g h =
      left_alone tenant_id feeds i i' (λ q u n k. cc (n.0)) h
  check_existing-Against i i' failed hash url e f g h =
      left_alone tenant_id feeds i i' (λ q u n k. cc (n.0)) h

  -- Item by item.
  data EachAgainst : List OpmlImportItemInput → List OpmlImportItemInput → Type 0 where
    each_nil : EachAgainst [] []
    each_cons :
        (i i' : OpmlImportItemInput) (items items' : List OpmlImportItemInput)
        → Against tenant_id feeds i i'
        → EachAgainst items items'
        → EachAgainst (i ∷ items) (i' ∷ items')

  cons_result-ok :
      (x : Result OpmlImportItemInput) (xs : Result (List OpmlImportItemInput))
      (items : List OpmlImportItemInput)
      → cons_result x xs ≡ ok items
      → (i : OpmlImportItemInput) × (rest : List OpmlImportItemInput) × (x ≡ ok i)
        × (xs ≡ ok rest)
        × (items ≡ i ∷ rest)
  cons_result-ok (err e) xs items h = cc
  cons_result-ok (ok i) (err e) items h = cc
  cons_result-ok (ok i) (ok rest) items h = (i, rest, refl, refl, cc)

  checked-Each :
      (drafts items : List OpmlImportItemInput)
      → checked_items p allow tenant_id feeds drafts ≡ ok items
      → EachAgainst drafts items
  unfolding checked_items
  checked-Each [] items h = subst (EachAgainst []) (let e : [] ≡ items = cc in e) each_nil
  checked-Each (d ∷ drafts) items h =
      let (i, rest, e, f, g) = cons_result-ok _ _ items h in
      subst (EachAgainst (d ∷ drafts)) (sym g) (
        each_cons d i drafts rest
          (check_existing-Against d i d.item_status d.normalized_url_hash d.normalized_url refl refl
            refl e)
          (checked-Each drafts rest f))

  all-Each :
      (d i : OpmlImportItemInput) (drafts items : List OpmlImportItemInput)
      → ((hash : String) → IsNew hash i → IsNew hash d)
      → EachAgainst drafts items
      → All (Apart d) drafts
      → All (Apart i) items
  all-Each d i _ _ back each_nil h = tt
  all-Each d i _ _ back (each_cons e j drafts items against each) h = (
    λ hash m n. h.0 hash (back hash m) (against.0 hash n),
    all-Each d i drafts items back each h.1,
  )

  pairwise-Each :
      (drafts items : List OpmlImportItemInput)
      → EachAgainst drafts items
      → PairwiseApart drafts
      → PairwiseApart items
  pairwise-Each _ _ each_nil h = tt
  pairwise-Each _ _ (each_cons d i drafts items against each) h =
      (all-Each d i drafts items against.0 each h.0, pairwise-Each drafts items each h.1)

  -- No feed of the tenant has the hash of a new item.
  absent-Each :
      (drafts items : List OpmlImportItemInput)
      → EachAgainst drafts items
      → All
          (λ i.
            (hash url : String)
            → IsNew hash i
            → i.normalized_url ≡ some url
            → existing_feed tenant_id feeds hash ≡ none)
          items
  absent-Each _ _ each_nil = tt
  absent-Each _ _ (each_cons d i drafts items against each) =
      (against.1, absent-Each drafts items each)

-- The items of a preview: two new ones have different hashes, and no feed of the tenant has the hash of
-- a new one that has its url.
pub preview_items-IsNew :
    (p : UrlPlatform) (allow : Bool) (max_bytes : ℕ) (tenant_id : String) (feeds : List FeedRow)
    (opml_xml : List ℕ) (items : List OpmlImportItemInput)
    → preview_items p allow max_bytes tenant_id feeds opml_xml ≡ ok items
    → PairwiseApart items
      × All
          (λ i.
            (hash url : String)
            → IsNew hash i
            → i.normalized_url ≡ some url
            → existing_feed tenant_id feeds hash ≡ none)
          items
unfolding preview_items
preview_items-IsNew p allow max_bytes tenant_id feeds opml_xml items h =
    elim (Result-cases (extract_opml_items max_bytes 20000 opml_xml)) [
      | inr (e, k) ↦ cc (rw k at h)
      | inl (parsed, k) ↦
          let drafts = draft_items [] (map (classify_local_item p allow) parsed) in
          let each = checked-Each p allow tenant_id feeds drafts items (rw k at h) in
          (
            pairwise-Each p allow tenant_id feeds drafts items each (draft-Apart [] _).1,
            absent-Each p allow tenant_id feeds drafts items each,
          )
    ]
