-- ===== src/Opml/Status.antt =====
-- modules/opml-imports/domain/opml-import-status.ts: the states of an import and its transitions.
use feedpulse.Base.{Bool, true, false, Result, ok, err, plain_error, if◌then◌else◌, ◌||◌}

pub data OpmlImportStatus : Type 0 where
  uploaded parsing preview_ready importing completed failed_validation failed : OpmlImportStatus

-- `VALID_OPML_IMPORT_STATUS_TRANSITIONS[from].includes(to)`
abbrev pub is_listed : OpmlImportStatus → OpmlImportStatus → Bool
is_listed uploaded parsing = true
is_listed uploaded failed_validation = true
is_listed parsing preview_ready = true
is_listed parsing failed_validation = true
is_listed preview_ready importing = true
is_listed preview_ready failed = true
is_listed importing completed = true
is_listed importing failed = true
is_listed _ _ = false

abbrev pub same_status : OpmlImportStatus → OpmlImportStatus → Bool
same_status uploaded uploaded = true
same_status parsing parsing = true
same_status preview_ready preview_ready = true
same_status importing importing = true
same_status completed completed = true
same_status failed_validation failed_validation = true
same_status failed failed = true
same_status _ _ = false

unfoldable pub can_transition_opml_import_status : OpmlImportStatus → OpmlImportStatus → Bool
can_transition_opml_import_status from to = same_status from to || is_listed from to

-- The message names both states; it is thrown to the queue and read by no code.
unfoldable pub assert_valid_opml_import_status_transition :
    OpmlImportStatus → OpmlImportStatus → Result (Unit {0})
unfolding can_transition_opml_import_status
assert_valid_opml_import_status_transition from to =
    if can_transition_opml_import_status from to
    then ok tt
    else err (plain_error "invalid_opml_import_status_transition")
