-- ===== src/Opml/JobTests.antt =====
-- Runs of the requests and jobs on imports, and an application of each theorem.
use feedpulse.Base.{
  ℕ, ◌+◌, ◌≡◌, refl, Bool, true, false, none, some, List, [], ◌∷◌, ok, find, any, select, length,
}
use feedpulse.Text.Normalize.{codes}
use feedpulse.Feeds.Keys
use feedpulse.Feeds.Registration.{IsUnique}
use feedpulse.Feeds.Editing.{collides}
use feedpulse.Opml.Status.{uploaded, preview_ready, importing, completed, failed}
use feedpulse.Opml.Urls.{build_normalized_feed_url_hash}
use feedpulse.Opml.Tables.{
  new, ItemRow, ImportRow, find_import_by_id_for_tenant, list_new_candidate_items,
  mark_item_imported,
}
use feedpulse.Opml.Marks.{by_id, Follows}
use feedpulse.Opml.Requests.{already_confirmed, confirm_opml_import}
use feedpulse.Opml.Apply.{
  Progress, imported_feed, upsert_feed, record_upsert, apply_item, apply_items,
}
use feedpulse.Opml.ApplyJob.{Database, start_of, final_input, process_opml_apply_job}
use feedpulse.Opml.Runs.{
  Event, creates, confirms, parses, applies, run_events, imports_follow_transitions,
}
use feedpulse.Opml.Unqueued.{unqueued_confirmation_stays, unqueued_import_fails}
use feedpulse.Opml.Settling.{apply_settles}
use feedpulse.Opml.Tests.{platform, document}

abbrev fresh : ImportRow
fresh = record {
  id = 1;
  tenant_id = "acme";
  status = uploaded;
  file_name = "feeds.opml";
  file_size_bytes = 100;
  source_checksum = none;
  error_message = none;
  total_items = 0;
  valid_items = 0;
  duplicate_items = 0;
  existing_items = 0;
  invalid_items = 0;
  imported_items = 0;
  uploaded_at = 0;
  confirmed_at = none;
  completed_at = none;
  updated_at = 0;
}

abbrev ready : ImportRow
ready = record fresh { status = preview_ready }

abbrev running : ImportRow
running = record fresh { status = importing }

abbrev item : ItemRow
item = record {
  id = 5;
  tenant_id = "acme";
  import_id = 1;
  title = none;
  outline_path = none;
  source_xml_url = [];
  normalized_url = some "https://a.org/f";
  normalized_url_hash = some "https://a.org/f";
  item_status = new;
  validation_error = none;
  feed_id = none;
}

abbrev with_import : ImportRow → Database
with_import row = record { imports = row ∷ []; items = item ∷ []; feeds = []; fetch_queue = [] }

abbrev no_jitter : ℕ → ℕ
no_jitter n = 0

abbrev no_faults : ℕ → Bool
no_faults n = false

fresh_found : find (by_id 1) (fresh ∷ []) ≡ some fresh
unfolding find
fresh_found = refl

-- Parsed while another is uploaded, confirmed and applied.
abbrev events : List Event
events =
    parses true 1000 none 10 5 1 document
    ∷ creates true 1000 0 15 "acme" "more.opml" (codes "more.opml") "text/xml" 80 "abc"
    ∷ confirms true 20 1 "acme"
    ∷ applies true 30 no_jitter no_faults 1 1
    ∷ []

imports_follow_transitions_example :
    (s : ImportRow) × (find (by_id 1) (run_events platform events (with_import fresh)).imports
      ≡ some s)
    × Follows uploaded s.status
imports_follow_transitions_example =
    imports_follow_transitions platform events (with_import fresh) 1 fresh (tt, tt) fresh_found

ready_found : find_import_by_id_for_tenant 1 "acme" (ready ∷ []) ≡ some ready
unfolding find_import_by_id_for_tenant find
ready_found = refl

unqueued_confirmation_stays_example :
    ((confirm_opml_import false 20 1 "acme" (ready ∷ []) []).queue ≡ [])
    × ((takes : Bool) (later : ℕ)
        → confirm_opml_import takes later 1 "acme"
            (confirm_opml_import false 20 1 "acme" (ready ∷ []) []).imports
            []
          ≡ record {
            imports = (confirm_opml_import false 20 1 "acme" (ready ∷ []) []).imports;
            queue = [];
            answer = ok already_confirmed;
          })
unqueued_confirmation_stays_example =
    unqueued_confirmation_stays 20 1 "acme" (ready ∷ []) [] ready ready_found refl

abbrev start : Progress
start = start_of platform true 30 no_jitter no_faults (some 0) 7 1 (with_import running)

abbrev applied : Progress
applied = record {
  items = mark_item_imported 5 7 (item ∷ []);
  feeds = imported_feed 7 30 0 "acme" "https://a.org/f" "https://a.org/f" ∷ [];
  next_feed_id = 8;
  imported_items = 1;
  failed_items = 0;
  created_feed_ids = 7 ∷ [];
}

apply_test :
    apply_items platform true 30 no_jitter no_faults "acme"
      (list_new_candidate_items 1 (item ∷ []))
      start
    ≡ some applied
unfolding apply_items apply_item upsert_feed record_upsert list_new_candidate_items select any find
    collides build_normalized_feed_url_hash
apply_test = refl

running_found : find (by_id 1) (running ∷ []) ≡ some running
unfolding find
running_found = refl

unqueued_import_fails_example :
    ((final_input 1 applied).status ≡ completed)
    × ((d' : Database) × (process_opml_apply_job platform true 30 no_jitter no_faults
            (some 0)
            7
            1
            (with_import running)
          ≡ ok d')
        × (d'.items ≡ applied.items)
        × (d'.feeds ≡ applied.feeds)
        × ((x : ImportRow) × (find (by_id 1) d'.imports ≡ some x) × (x.status ≡ failed)))
unqueued_import_fails_example =
    unqueued_import_fails platform true 30 no_jitter no_faults 0 7 1 (with_import running) running
      applied running_found refl apply_test refl refl

apply_settles_example :
    (1 + 0 ≡ length (list_new_candidate_items 1 (item ∷ [])))
    × (list_new_candidate_items 1 applied.items ≡ [])
    × Keys.HasKey applied.feeds
    × IsUnique applied.feeds
apply_settles_example =
    apply_settles platform true 30 no_jitter no_faults "acme" 1 start applied tt tt tt refl
      apply_test
