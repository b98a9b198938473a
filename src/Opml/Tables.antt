-- ===== src/Opml/Tables.antt =====
-- modules/opml-imports/opml-imports.repository.ts: the tables of imports and of their items.
use feedpulse.Base.{
  ℕ, suc, Bool, true, false, ◌&&◌, Option, none, some, List, [], ◌∷◌, ◌++◌, String, str_eq, ◌==◌,
  if◌then◌else◌, select, update, find, count, or_else, coalesce, Result, ok, err, not_found, length,
  take, drop, ◌-◌, ◌*◌, not,
}
use feedpulse.Opml.Status.{OpmlImportStatus, uploaded}

pub data ItemStatus : Type 0 where
  new existing duplicate invalid imported failed : ItemStatus

pub record OpmlImportItemInput : Type 0 where
  pub title : Option (List ℕ)
  pub outline_path : Option (List ℕ)
  pub source_xml_url : List ℕ
  pub normalized_url : Option String
  pub normalized_url_hash : Option String
  pub item_status : ItemStatus
  pub validation_error : Option String

pub record ImportRow : Type 0 where
  pub id : ℕ
  pub tenant_id : String
  pub status : OpmlImportStatus
  pub file_name : String
  pub file_size_bytes : ℕ
  pub source_checksum : Option String
  pub error_message : Option String
  pub total_items : ℕ
  pub valid_items : ℕ
  pub duplicate_items : ℕ
  pub existing_items : ℕ
  pub invalid_items : ℕ
  pub imported_items : ℕ
  pub uploaded_at : ℕ
  pub confirmed_at : Option ℕ
  pub completed_at : Option ℕ
  pub updated_at : ℕ

pub record ItemRow : Type 0 where
  pub id : ℕ
  pub tenant_id : String
  pub import_id : ℕ
  pub title : Option (List ℕ)
  pub outline_path : Option (List ℕ)
  pub source_xml_url : List ℕ
  pub normalized_url : Option String
  pub normalized_url_hash : Option String
  pub item_status : ItemStatus
  pub validation_error : Option String
  pub feed_id : Option ℕ

abbrev pub same_item_status : ItemStatus → ItemStatus → Bool
same_item_status new new = true
same_item_status existing existing = true
same_item_status duplicate duplicate = true
same_item_status invalid invalid = true
same_item_status imported imported = true
same_item_status failed failed = true
same_item_status _ _ = false

-- `createImport`: the row of the INSERT.
unfoldable pub created_import : ℕ → ℕ → String → String → ℕ → String → ImportRow
created_import id now tenant_id file_name file_size_bytes source_checksum = record {
  id = id;
  tenant_id = tenant_id;
  status = uploaded;
  file_name = file_name;
  file_size_bytes = file_size_bytes;
  source_checksum = some source_checksum;
  error_message = none;
  total_items = 0;
  valid_items = 0;
  duplicate_items = 0;
  existing_items = 0;
  invalid_items = 0;
  imported_items = 0;
  uploaded_at = now;
  confirmed_at = none;
  completed_at = none;
  updated_at = now;
}

-- Lookups; the summary that the code makes of a row has the row's own fields.
unfoldable pub find_import_by_id_for_worker : ℕ → List ImportRow → Option ImportRow
find_import_by_id_for_worker id imports = find (λ r. r.id == id) imports

unfoldable pub find_import_by_id_for_tenant : ℕ → String → List ImportRow → Option ImportRow
find_import_by_id_for_tenant id tenant_id imports =
    find (λ r. (r.id == id) && str_eq r.tenant_id tenant_id) imports

abbrev pub or_throw : Option ImportRow → Result ImportRow
or_throw none = err (not_found "opml_import_not_found")
or_throw (some r) = ok r

unfoldable pub get_import_or_throw_for_worker : ℕ → List ImportRow → Result ImportRow
unfolding find_import_by_id_for_worker
get_import_or_throw_for_worker id imports = or_throw (find_import_by_id_for_worker id imports)

unfoldable pub get_import_or_throw_for_tenant : ℕ → String → List ImportRow → Result ImportRow
unfolding find_import_by_id_for_tenant
get_import_or_throw_for_tenant id tenant_id imports =
    or_throw (find_import_by_id_for_tenant id tenant_id imports)

-- The input of `markImportStatus`; a counter or message that is left out is none.
pub record Counters : Type 0 where
  pub total_items : Option ℕ
  pub valid_items : Option ℕ
  pub duplicate_items : Option ℕ
  pub existing_items : Option ℕ
  pub invalid_items : Option ℕ
  pub imported_items : Option ℕ

abbrev pub no_counters : Counters
no_counters = record {
  total_items = none;
  valid_items = none;
  duplicate_items = none;
  existing_items = none;
  invalid_items = none;
  imported_items = none;
}

pub record StatusInput : Type 0 where
  pub status : OpmlImportStatus
  pub error_message : Option String
  pub confirmed : Bool
  pub completed : Bool
  pub counters : Counters

abbrev pub to_status : OpmlImportStatus → Option String → StatusInput
to_status status error_message = record {
  status = status;
  error_message = error_message;
  confirmed = false;
  completed = false;
  counters = no_counters;
}

unfoldable pub marked_row : ℕ → StatusInput → ImportRow → ImportRow
marked_row now i r = record r {
  status = i.status;
  error_message = coalesce i.error_message r.error_message;
  total_items = or_else i.counters.total_items r.total_items;
  valid_items = or_else i.counters.valid_items r.valid_items;
  duplicate_items = or_else i.counters.duplicate_items r.duplicate_items;
  existing_items = or_else i.counters.existing_items r.existing_items;
  invalid_items = or_else i.counters.invalid_items r.invalid_items;
  imported_items = or_else i.counters.imported_items r.imported_items;
  confirmed_at = if i.confirmed then coalesce r.confirmed_at (some now) else r.confirmed_at;
  completed_at = if i.completed then some now else r.completed_at;
  updated_at = now;
}

-- `markImportStatus` of an import that is there: its callers read it first, and no code deletes one.
unfoldable pub mark_import_status : ℕ → ℕ → StatusInput → List ImportRow → List ImportRow
mark_import_status id now input imports = update (λ r. r.id == id) (marked_row now input) imports

abbrev pub item_row : ℕ → String → ℕ → OpmlImportItemInput → ItemRow
item_row id tenant_id import_id i = record {
  id = id;
  tenant_id = tenant_id;
  import_id = import_id;
  title = i.title;
  outline_path = i.outline_path;
  source_xml_url = i.source_xml_url;
  normalized_url = i.normalized_url;
  normalized_url_hash = i.normalized_url_hash;
  item_status = i.item_status;
  validation_error = i.validation_error;
  feed_id = none;
}

-- The INSERTs one after the other, at the ids that the sequence gives from `id` on.
unfoldable pub item_rows : ℕ → String → ℕ → List OpmlImportItemInput → List ItemRow
item_rows id tenant_id import_id [] = []
item_rows id tenant_id import_id (i ∷ inputs) =
    item_row id tenant_id import_id i ∷ item_rows (suc id) tenant_id import_id inputs

unfoldable pub replace_import_items :
    ℕ → String → ℕ → List OpmlImportItemInput → List ItemRow → List ItemRow
unfolding item_rows
replace_import_items id tenant_id import_id inputs items =
    select (λ r. not (r.import_id == import_id)) items ++ item_rows id tenant_id import_id inputs

-- The table is in the order of the ids.
unfoldable pub list_preview_items : ℕ → ℕ → ℕ → List ItemRow → List ItemRow × ℕ
list_preview_items import_id page page_size items =
    let rows = select (λ r. r.import_id == import_id) items in
    (take page_size (drop ((page - 1) * page_size) rows), length rows)

unfoldable pub list_new_candidate_items : ℕ → List ItemRow → List ItemRow
list_new_candidate_items import_id items =
    select (λ r. (r.import_id == import_id) && same_item_status r.item_status new) items

unfoldable pub mark_item_imported : ℕ → ℕ → List ItemRow → List ItemRow
mark_item_imported item_id feed_id items =
    update (λ r. r.id == item_id) (λ r. record r { item_status = imported; feed_id = some feed_id })
      items

unfoldable pub mark_item_failed : ℕ → String → List ItemRow → List ItemRow
mark_item_failed item_id validation_error items =
    update (λ r. r.id == item_id)
      (λ r. record r { item_status = failed; validation_error = some validation_error }) items

-- `countItemsByStatus`, read at one status: a status that no item has is 0 where it is read.
unfoldable pub count_items_by_status : ℕ → ItemStatus → List ItemRow → ℕ
count_items_by_status import_id status items =
    count (λ r. (r.import_id == import_id) && same_item_status r.item_status status) items
