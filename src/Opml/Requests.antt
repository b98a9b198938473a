-- ===== src/Opml/Requests.antt =====
-- modules/opml-imports/application: create-opml-import.use-case.ts and confirm-opml-import.use-case.ts.
-- A queue is the list of the import ids that were put into it; whether it takes a job is an argument.
use feedpulse.Base.{
  ℕ, Bool, true, not, ◌&&◌, ◌||◌, none, List, [], ◌∷◌, ◌++◌, String, str_eq, ltb, ◌==◌,
  if◌then◌else◌, any, Result, ok, err, bad_request, conflict, plain_error,
}
use feedpulse.Text.Normalize.{codes}
use feedpulse.Text.Characters.{has_suffix}
use feedpulse.Opml.Status.{OpmlImportStatus, preview_ready, importing, completed}
use feedpulse.Opml.Tables.{
  ImportRow, created_import, get_import_or_throw_for_tenant, StatusInput, to_status,
  mark_import_status,
}

-- The extension and the media type count in lower case.
unfoldable pub validate_upload : ℕ → List ℕ → String → ℕ → Result (Unit {0})
validate_upload max_bytes lower_file_name lower_mime_type size =
    let extension_looks_valid =
      has_suffix lower_file_name (codes ".opml") || has_suffix lower_file_name (codes ".xml") in
    let mime_looks_valid =
      any (str_eq lower_mime_type)
        ("text/xml" ∷ "application/xml" ∷ "text/x-opml" ∷ "application/octet-stream" ∷ []) in
    if size == 0
    then err (bad_request "opml_file_required")
    else if ltb max_bytes size
    then err (bad_request "opml_file_too_large")
    else if not extension_looks_valid && not mime_looks_valid
    then err (bad_request "opml_file_invalid_type")
    else ok tt

-- The tables and queues behind a request, and its answer. The row stays where the queue fails.
pub record Requested (A : Type 0) : Type 0 where
  pub imports : List ImportRow
  pub queue : List ℕ
  pub answer : Result A

unfoldable pub create_opml_import :
    Bool
    → ℕ
    → ℕ
    → ℕ
    → String
    → String
    → List ℕ
    → String
    → ℕ
    → String
    → List ImportRow
    → List ℕ
    → Requested ℕ
unfolding validate_upload created_import
create_opml_import queue_takes max_bytes id now tenant_id file_name lower_file_name lower_mime_type
      size checksum imports queue =
    let rows = imports ++ created_import id now tenant_id file_name size checksum ∷ [] in
    elim (validate_upload max_bytes lower_file_name lower_mime_type size) [
      | err e ↦ record { imports = imports; queue = queue; answer = err e }
      | ok _ ↦
          if queue_takes
          then record { imports = rows; queue = queue ++ id ∷ []; answer = ok id }
          else record { imports = rows; queue = queue; answer = err (plain_error "enqueue") }
    ]

pub data Confirmation : Type 0 where
  queued already_confirmed : Confirmation

-- `{ status: 'importing', confirmed: true }`
abbrev pub confirm_input : StatusInput
confirm_input = record (to_status importing none) { confirmed = true }

unfoldable pub confirm_in :
    Bool → ℕ → ℕ → List ImportRow → List ℕ → OpmlImportStatus → Requested Confirmation
confirm_in queue_takes now id imports queue importing = record {
  imports = imports;
  queue = queue;
  answer = ok already_confirmed;
}
confirm_in queue_takes now id imports queue completed = record {
  imports = imports;
  queue = queue;
  answer = ok already_confirmed;
}
confirm_in queue_takes now id imports queue preview_ready =
    let rows = mark_import_status id now confirm_input imports in
    if queue_takes
    then record { imports = rows; queue = queue ++ id ∷ []; answer = ok queued }
    else record { imports = rows; queue = queue; answer = err (plain_error "enqueue") }
confirm_in queue_takes now id imports queue status = record {
  imports = imports;
  queue = queue;
  answer = err (conflict "opml_import_not_ready_for_confirm");
}

abbrev pub confirm_found :
    Bool → ℕ → ℕ → List ImportRow → List ℕ → Result ImportRow → Requested Confirmation
confirm_found queue_takes now id imports queue (err e) = record {
  imports = imports;
  queue = queue;
  answer = err e;
}
confirm_found queue_takes now id imports queue (ok r) =
    confirm_in queue_takes now id imports queue r.status

-- `execute` of the confirmation.
unfoldable pub confirm_opml_import :
    Bool → ℕ → ℕ → String → List ImportRow → List ℕ → Requested Confirmation
unfolding confirm_in
confirm_opml_import queue_takes now id tenant_id imports queue =
    confirm_found queue_takes now id imports queue
      (get_import_or_throw_for_tenant id tenant_id imports)
