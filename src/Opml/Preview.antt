-- ===== src/Opml/Preview.antt =====
-- modules/opml-imports/application/process-opml-parse-job.use-case.ts: an uploaded list becomes a
-- preview. The job's statements are one transaction; `failure` is the error of the first of them that
-- throws, if one does.
use feedpulse.Base.{
  ℕ, Bool, false, not, ◌&&◌, Option, none, some, List, [], ◌∷◌, String, str_eq, if◌then◌else◌, any,
  map, count, reverse, length, find, Result, ok, err, message, plain_error,
}
use feedpulse.Text.Normalize.{codes}
use feedpulse.Opml.Status.{OpmlImportStatus, uploaded, parsing, preview_ready, failed_validation}
use feedpulse.Opml.Urls.{UrlPlatform, normalize_feed_url, build_normalized_feed_url_hash}
use feedpulse.Opml.Parser.{ParsedOpmlItem}
use feedpulse.Opml.Walk.{extract_opml_items}
use feedpulse.Opml.Tables.{
  ItemStatus, new, existing, duplicate, invalid, same_item_status, OpmlImportItemInput, ImportRow,
  ItemRow, get_import_or_throw_for_worker, Counters, StatusInput, to_status, mark_import_status,
  replace_import_items,
}
use feedpulse.Feeds.Row.{FeedRow}

abbrev pub classified : UrlPlatform → ParsedOpmlItem → Result String → OpmlImportItemInput
classified p item (ok url) = record {
  title = item.title;
  outline_path = item.outline_path;
  source_xml_url = item.source_xml_url;
  normalized_url = some url;
  normalized_url_hash = some (build_normalized_feed_url_hash p url);
  item_status = new;
  validation_error = none;
}
classified p item (err e) = record {
  title = item.title;
  outline_path = item.outline_path;
  source_xml_url = item.source_xml_url;
  normalized_url = none;
  normalized_url_hash = none;
  item_status = invalid;
  validation_error = some (message e);
}

-- `classifyLocalItem`; `allow` is `privateFeedHostsAllowedByEnv()`.
unfoldable pub classify_local_item : UrlPlatform → Bool → ParsedOpmlItem → OpmlImportItemInput
classify_local_item p allow item =
    classified p item (normalize_feed_url p allow item.source_xml_url)

abbrev pub as_duplicate : OpmlImportItemInput → OpmlImportItemInput
as_duplicate i = record i {
  item_status = duplicate;
  validation_error = some "duplicate_within_opml";
}

-- `seenHashes.has(hash)`
abbrev pub has_hash : String → List String → Bool
has_hash hash seen = any (str_eq hash) seen

-- A new item is told from one whose hash was seen before: the item, and the hashes seen behind it.
unfoldable pub check_seen :
    List String
    → OpmlImportItemInput
    → ItemStatus
    → Option String
    → OpmlImportItemInput × List String
unfolding any
check_seen seen i new (some hash) =
    if has_hash hash seen then (as_duplicate i, seen) else (i, hash ∷ seen)
check_seen seen i status hash = (i, seen)

-- The first `map` of the job: classification and duplicates within the document.
unfoldable pub draft_items : List String → List OpmlImportItemInput → List OpmlImportItemInput
unfolding check_seen
draft_items seen [] = []
draft_items seen (i ∷ inputs) =
    (check_seen seen i i.item_status i.normalized_url_hash).0
    ∷ draft_items (check_seen seen i i.item_status i.normalized_url_hash).1 inputs

abbrev pub is_some_text : String → Option String → Bool
is_some_text text none = false
is_some_text text (some t) = str_eq t text

-- `findExistingFeedsByHash` with `Map.get`: the last row of the tenant with this hash counts. Rows that
-- are found by their url alone stand under another hash.
unfoldable pub existing_feed : String → List FeedRow → String → Option FeedRow
existing_feed tenant_id feeds hash =
    find (λ r. str_eq r.tenant_id tenant_id && is_some_text hash r.normalized_url_hash)
      (reverse feeds)

abbrev pub as_existing : OpmlImportItemInput → OpmlImportItemInput
as_existing i = record i { item_status = existing }

abbrev pub as_collision : OpmlImportItemInput → OpmlImportItemInput
as_collision i = record i {
  item_status = invalid;
  validation_error = some "normalized_hash_collision_detected";
  normalized_url = none;
  normalized_url_hash = none;
}

abbrev pub compare_urls : OpmlImportItemInput → String → Result String → Result OpmlImportItemInput
compare_urls i url (err e) = err e
compare_urls i url (ok existing_url) =
    if str_eq existing_url url then ok (as_existing i) else ok (as_collision i)

unfoldable pub against_feed :
    UrlPlatform → Bool → OpmlImportItemInput → String → Option FeedRow → Result OpmlImportItemInput
against_feed p allow i url none = ok i
against_feed p allow i url (some feed) =
    compare_urls i url (normalize_feed_url p allow (codes feed.url))

-- The second `map` of the job: an item that is still new against the tenant's feeds.
unfoldable pub check_existing :
    UrlPlatform
    → Bool
    → String
    → List FeedRow
    → OpmlImportItemInput
    → ItemStatus
    → Option String
    → Option String
    → Result OpmlImportItemInput
unfolding against_feed
check_existing p allow tenant_id feeds i new (some hash) (some url) =
    against_feed p allow i url (existing_feed tenant_id feeds hash)
check_existing p allow tenant_id feeds i status hash url = ok i

abbrev pub cons_result :
    Result OpmlImportItemInput
    → Result (List OpmlImportItemInput)
    → Result (List OpmlImportItemInput)
cons_result (err e) rest = err e
cons_result (ok i) (err e) = err e
cons_result (ok i) (ok inputs) = ok (i ∷ inputs)

unfoldable pub checked_items :
    UrlPlatform
    → Bool
    → String
    → List FeedRow
    → List OpmlImportItemInput
    → Result (List OpmlImportItemInput)
checked_items p allow tenant_id feeds [] = ok []
checked_items p allow tenant_id feeds (i ∷ inputs) =
    cons_result
      (check_existing p allow tenant_id feeds i i.item_status i.normalized_url_hash
        i.normalized_url)
      (checked_items p allow tenant_id feeds inputs)

abbrev pub has_status : ItemStatus → OpmlImportItemInput → Bool
has_status status i = same_item_status i.item_status status

unfoldable pub preview_counters : List OpmlImportItemInput → Counters
preview_counters items = record {
  total_items = some (length items);
  valid_items = some (count (λ i. not (has_status invalid i)) items);
  duplicate_items = some (count (has_status duplicate) items);
  existing_items = some (count (has_status existing) items);
  invalid_items = some (count (has_status invalid) items);
  imported_items = none;
}

abbrev pub items_of_parsed :
    UrlPlatform
    → Bool
    → String
    → List FeedRow
    → Result (List ParsedOpmlItem)
    → Result (List OpmlImportItemInput)
items_of_parsed p allow tenant_id feeds (err e) = err e
items_of_parsed p allow tenant_id feeds (ok parsed) =
    checked_items p allow tenant_id feeds
      (draft_items [] (map (classify_local_item p allow) parsed))

-- The items that the job stores, or what it throws.
unfoldable pub preview_items :
    UrlPlatform → Bool → ℕ → String → List FeedRow → List ℕ → Result (List OpmlImportItemInput)
preview_items p allow max_bytes tenant_id feeds opml_xml =
    items_of_parsed p allow tenant_id feeds (extract_opml_items max_bytes 20000 opml_xml)

-- The tables of the imports.
pub record Tables : Type 0 where
  pub imports : List ImportRow
  pub items : List ItemRow

abbrev pub preview_input : List OpmlImportItemInput → StatusInput
preview_input items = record (to_status preview_ready none) { counters = preview_counters items }

-- The end of the transaction, or the catch behind the rollback.
unfoldable pub finish_parse :
    ℕ → ℕ → ℕ → String → Tables → Result (List OpmlImportItemInput) → Tables
finish_parse now next_id id tenant_id t (err e) = record t {
  imports = mark_import_status id now (to_status failed_validation (some (message e))) t.imports;
}
finish_parse now next_id id tenant_id t (ok items) = record {
  imports =
      mark_import_status id now (preview_input items)
        (mark_import_status id now (to_status parsing none) t.imports);
  items = replace_import_items next_id tenant_id id items t.items;
}

abbrev pub or_failure :
    Option String → Result (List OpmlImportItemInput) → Result (List OpmlImportItemInput)
or_failure none result = result
or_failure (some failure) result = err (plain_error failure)

module _ (p : UrlPlatform) (allow : Bool) (max_bytes : ℕ) (failure : Option String)
    (feeds : List FeedRow) (now next_id id : ℕ) (opml_xml : List ℕ) where
  unfoldable pub parse_found : Tables → ImportRow → OpmlImportStatus → Tables
  unfolding finish_parse
  parse_found t r uploaded =
      finish_parse now next_id id r.tenant_id t
        (or_failure failure (preview_items p allow max_bytes r.tenant_id feeds opml_xml))
  parse_found t r parsing =
      finish_parse now next_id id r.tenant_id t
        (or_failure failure (preview_items p allow max_bytes r.tenant_id feeds opml_xml))
  parse_found t r status = t

  abbrev pub parse_row : Tables → Result ImportRow → Result Tables
  parse_row t (err e) = err e
  parse_row t (ok r) = ok (parse_found t r r.status)

  -- `execute`. The transition from uploaded or parsing to parsing is valid.
  unfoldable pub process_opml_parse_job : Tables → Result Tables
  unfolding parse_found
  process_opml_parse_job t = parse_row t (get_import_or_throw_for_worker id t.imports)
