-- ===== src/Opml/Runs.antt =====
-- Runs of requests and jobs on the imports: the status of each import follows the transitions.
use feedpulse.Base.{
  ℕ, ◌+◌, arith, ◌≡◌, refl, Bool, Option, none, some, List, [], ◌∷◌, find, String, Result, ok, err,
}
use feedpulse.Opml.Tables.{
  ImportRow, or_throw, get_import_or_throw_for_worker, get_import_or_throw_for_tenant,
  find_import_by_id_for_tenant,
}
use feedpulse.Opml.Marks.{by_id, Follows}
use feedpulse.Opml.Lifecycle.{HasKey, Moves, Moves-refl, Moves-trans, parse_found-Moves}
use feedpulse.Opml.Urls.{UrlPlatform}
use feedpulse.Opml.Requests.{create_opml_import, confirm_found, confirm_opml_import}
use feedpulse.Opml.Creations.{next_import_id, create_opml_import-Moves}
use feedpulse.Opml.Preview.{Tables, parse_row, process_opml_parse_job}
use feedpulse.Opml.ApplyJob.{Database, apply_row, process_opml_apply_job}
use feedpulse.Opml.JobMoves.{by_tenant-by_id, confirm_in-Moves, apply_found-Moves, database_after}

-- An upload, a request to confirm, a job that parses or a job that applies; the fetch queue takes the
-- jobs of the feeds that are created. An upload takes an id of the table's sequence, which may have
-- left out some.
pub data Event : Type 0 where
  creates : Bool → ℕ → ℕ → ℕ → String → String → List ℕ → String → ℕ → String → Event
  confirms : Bool → ℕ → ℕ → String → Event
  parses : Bool → ℕ → Option String → ℕ → ℕ → ℕ → List ℕ → Event
  applies : Bool → ℕ → (ℕ → ℕ) → (ℕ → Bool) → ℕ → ℕ → Event

abbrev pub parsed_database : Database → Result Tables → Database
parsed_database d (err e) = d
parsed_database d (ok t) = record d { imports = t.imports; items = t.items }

unfoldable pub perform : UrlPlatform → Event → Database → Database
perform p (creates takes max_bytes gap now tenant_id file_name lower_file_name mime size checksum)
      d =
    record d {
      imports =
          (create_opml_import takes max_bytes (next_import_id d.imports + gap) now tenant_id
            file_name lower_file_name mime size checksum d.imports []).imports;
    }
perform p (confirms takes now id tenant_id) d = record d {
  imports = (confirm_opml_import takes now id tenant_id d.imports []).imports;
}
perform p (parses allow max_bytes failure now next_id id opml_xml) d = parsed_database d (
    process_opml_parse_job p allow max_bytes failure d.feeds now next_id id opml_xml
      (record { imports = d.imports; items = d.items }))
perform p (applies allow now jitter faults next_feed_id id) d =
    database_after d (process_opml_apply_job p allow now jitter faults none next_feed_id id d)

unfoldable pub run_events : UrlPlatform → List Event → Database → Database
run_events p [] d = d
run_events p (e ∷ events) d = run_events p events (perform p e d)

confirm_found-Moves :
    (takes : Bool) (now id : ℕ) (tenant_id : String) (imports : List ImportRow)
    (o : Option ImportRow)
    → HasKey imports
    → find_import_by_id_for_tenant id tenant_id imports ≡ o
    → Moves imports (confirm_found takes now id imports [] (or_throw o)).imports
confirm_found-Moves takes now id tenant_id imports none key e = Moves-refl imports
confirm_found-Moves takes now id tenant_id imports (some r) key e =
    confirm_in-Moves takes now id imports [] r r.status
      (by_tenant-by_id id tenant_id imports r key e) refl

parse_row-Moves :
    (p : UrlPlatform) (allow : Bool) (max_bytes : ℕ) (failure : Option String) (now next_id id : ℕ)
    (opml_xml : List ℕ) (d : Database) (o : Option ImportRow)
    → find (by_id id) d.imports ≡ o
    → Moves d.imports
        (parsed_database d (
          parse_row p allow max_bytes failure d.feeds now next_id id opml_xml
            (record { imports = d.imports; items = d.items })
            (or_throw o))).imports
parse_row-Moves p allow max_bytes failure now next_id id opml_xml d none e = Moves-refl d.imports
parse_row-Moves p allow max_bytes failure now next_id id opml_xml d (some r) e =
    parse_found-Moves p allow max_bytes failure d.feeds now next_id id opml_xml
      (record { imports = d.imports; items = d.items }) r r.status e refl

apply_row-Moves :
    (p : UrlPlatform) (allow : Bool) (now : ℕ) (jitter : ℕ → ℕ) (faults : ℕ → Bool)
    (next_feed_id id : ℕ) (d : Database) (o : Option ImportRow)
    → find (by_id id) d.imports ≡ o
    → Moves d.imports
        (database_after d
          (apply_row p allow now jitter faults none next_feed_id id d (or_throw o))).imports
apply_row-Moves p allow now jitter faults next_feed_id id d none e = Moves-refl d.imports
apply_row-Moves p allow now jitter faults next_feed_id id d (some r) e =
    apply_found-Moves p allow now jitter faults next_feed_id id r.tenant_id d r e r.status refl

perform-Moves :
    (p : UrlPlatform) (e : Event) (d : Database)
    → HasKey d.imports
    → Moves d.imports (perform p e d).imports
unfolding perform confirm_opml_import process_opml_parse_job process_opml_apply_job
    get_import_or_throw_for_worker get_import_or_throw_for_tenant
perform-Moves p
      (creates takes max_bytes gap now tenant_id file_name lower_file_name mime size checksum) d
      key =
    create_opml_import-Moves takes max_bytes (next_import_id d.imports + gap) now tenant_id
      file_name lower_file_name mime size checksum d.imports [] (omega arith)
perform-Moves p (confirms takes now id tenant_id) d key =
    confirm_found-Moves takes now id tenant_id d.imports _ key refl
perform-Moves p (parses allow max_bytes failure now next_id id opml_xml) d key =
    parse_row-Moves p allow max_bytes failure now next_id id opml_xml d _ refl
perform-Moves p (applies allow now jitter faults next_feed_id id) d key =
    apply_row-Moves p allow now jitter faults next_feed_id id d _ refl

run-Moves :
    (p : UrlPlatform) (events : List Event) (d : Database)
    → HasKey d.imports
    → Moves d.imports (run_events p events d).imports
unfolding run_events
run-Moves p [] d key = Moves-refl d.imports
run-Moves p (e ∷ events) d key =
    let first = perform-Moves p e d key in
    Moves-trans first (run-Moves p events (perform p e d) (first.keeps_key key))

-- Whatever uploads, confirmations, parse jobs and apply jobs follow one another, refused or not,
-- on whatever imports, with an import queue that takes a job or not and with whatever items
-- failing to be applied, as long as the fetch queue takes its jobs and each upload gets an id
-- above those of the table: an import of the table stays there, and its status is reached from
-- its status before along the listed transitions.
pub imports_follow_transitions :
    (p : UrlPlatform) (events : List Event) (d : Database) (i : ℕ) (r : ImportRow)
    → HasKey d.imports
    → find (by_id i) d.imports ≡ some r
    → (s : ImportRow) × (find (by_id i) (run_events p events d).imports ≡ some s)
      × Follows r.status s.status
imports_follow_transitions p events d i r key found = (run-Moves p events d key).follows i r found
