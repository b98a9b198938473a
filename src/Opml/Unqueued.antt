-- ===== src/Opml/Unqueued.antt =====
-- What is left of an import when a queue does not take its jobs.
use feedpulse.Base.{
  ℕ, ◌≡◌, refl, ap, ◌∙◌, Bool, true, false, some, List, ◌==◌, find, find-mem, &&-eq-true, str_eq,
  ◌&&◌, String, ok, err, plain_error, ltb, length,
}
use feedpulse.Opml.Status.{preview_ready, importing, completed, failed}
use feedpulse.Opml.Tables.{
  ImportRow, or_throw, to_status, marked_row, mark_import_status, find_import_by_id_for_tenant,
  get_import_or_throw_for_tenant, get_import_or_throw_for_worker, list_new_candidate_items,
}
use feedpulse.Opml.Marks.{by_id, find-mark, find-mark_same}
use feedpulse.Opml.Urls.{UrlPlatform}
use feedpulse.Opml.Requests.{already_confirmed, confirm_input, confirm_opml_import}
use feedpulse.Opml.Apply.{Progress, apply_items}
use feedpulse.Opml.ApplyJob.{
  Database, start_of, final_input, enqueue_created, finish_apply, apply_import, apply_found,
  process_opml_apply_job,
}

get_for_tenant-of_find :
    (id : ℕ) (tenant_id : String) (imports : List ImportRow) (r : ImportRow)
    → find_import_by_id_for_tenant id tenant_id imports ≡ some r
    → get_import_or_throw_for_tenant id tenant_id imports ≡ ok r
unfolding get_import_or_throw_for_tenant
get_for_tenant-of_find id tenant_id imports r found = ap or_throw found

get_for_worker-of_find :
    (id : ℕ) (imports : List ImportRow) (r : ImportRow)
    → find (by_id id) imports ≡ some r
    → get_import_or_throw_for_worker id imports ≡ ok r
unfolding get_import_or_throw_for_worker
get_for_worker-of_find id imports r found = ap or_throw found

-- The tenant finds the confirmed row.
confirmed-found :
    (now id : ℕ) (tenant_id : String) (imports : List ImportRow) (r : ImportRow)
    → find_import_by_id_for_tenant id tenant_id imports ≡ some r
    → find_import_by_id_for_tenant id tenant_id (mark_import_status id now confirm_input imports)
      ≡ some (marked_row now confirm_input r)
unfolding find_import_by_id_for_tenant marked_row
confirmed-found now id tenant_id imports r found =
    let own_row = λ (x : ImportRow). (x.id == id) && str_eq x.tenant_id tenant_id in
    let own =
      (&&-eq-true (r.id == id) (str_eq r.tenant_id tenant_id)
        (find-mem own_row imports found).1).0 in
    find-mark id now confirm_input imports own_row (λ x. refl) r found ∙ rw own refl

-- A confirmation of an import that is ready, whose job the queue does not take, throws and leaves the
-- import as importing with no job in the queue; every further confirmation, whether or not the queue
-- takes jobs again, answers that it is confirmed already, and puts no job into the queue either.
pub unqueued_confirmation_stays :
    (now id : ℕ) (tenant_id : String) (imports : List ImportRow) (queue : List ℕ) (r : ImportRow)
    → find_import_by_id_for_tenant id tenant_id imports ≡ some r
    → r.status ≡ preview_ready
    → ((confirm_opml_import false now id tenant_id imports queue).queue ≡ queue)
      × ((takes : Bool) (later : ℕ)
          → confirm_opml_import takes later id tenant_id
              (confirm_opml_import false now id tenant_id imports queue).imports
              queue
            ≡ record {
              imports = (confirm_opml_import false now id tenant_id imports queue).imports;
              queue = queue;
              answer = ok already_confirmed;
            })
unfolding confirm_opml_import
unqueued_confirmation_stays now id tenant_id imports queue r found ready =
    let marked = mark_import_status id now confirm_input imports in
    let first : confirm_opml_import false now id tenant_id imports queue
        ≡ record { imports = marked; queue = queue; answer = err (plain_error "enqueue") } =
      rw (get_for_tenant-of_find id tenant_id imports r found, ready) refl in
    let found' =
      get_for_tenant-of_find id tenant_id marked _
        (confirmed-found now id tenant_id imports r found) in
    rw first (refl, λ takes later. rw found' (unfold marked_row in refl))

-- What the catch leaves behind a commit: the tables are those of the commit, and the import is failed.
cut_off :
    (room now id : ℕ) (s : Progress) (d : Database) (r : ImportRow)
    → find (by_id id) d.imports ≡ some r
    → ltb room (length s.created_feed_ids) ≡ true
    → ((finish_apply (some room) now id (some s) d).items ≡ s.items)
      × ((finish_apply (some room) now id (some s) d).feeds ≡ s.feeds)
      × ((x : ImportRow) × (find (by_id id) (finish_apply (some room) now id (some s) d).imports
            ≡ some x)
          × (x.status ≡ failed))
unfolding finish_apply enqueue_created
cut_off room now id s d r found cut =
    let committed = mark_import_status id now (final_input id s) d.imports in
    let row = find-mark_same id now (final_input id s) d.imports r found in
    let input = to_status failed (some "enqueue") in
    rw cut (
      refl,
      refl,
      (
        marked_row now input (marked_row now (final_input id s) r),
        find-mark_same id now input committed (marked_row now (final_input id s) r) row,
        unfold marked_row in refl,
      ),
    )

-- An apply job on an import that is importing, in which no item failed, and whose fetch jobs the queue
-- stops taking: its feeds and items are committed, with the status completed in
-- the commit, and still the import ends as failed.
pub unqueued_import_fails :
    (p : UrlPlatform) (allow : Bool) (now : ℕ) (jitter : ℕ → ℕ) (faults : ℕ → Bool)
    (room next_feed_id id : ℕ) (d : Database) (r : ImportRow) (s : Progress)
    → find (by_id id) d.imports ≡ some r
    → r.status ≡ importing
    → apply_items p allow now jitter faults r.tenant_id
        (list_new_candidate_items id d.items)
        (start_of p allow now jitter faults (some room) next_feed_id id d)
      ≡ some s
    → s.failed_items ≡ 0
    → ltb room (length s.created_feed_ids) ≡ true
    → ((final_input id s).status ≡ completed)
      × ((d' : Database) × (process_opml_apply_job p allow now jitter faults
              (some room)
              next_feed_id
              id
              d
            ≡ ok d')
          × (d'.items ≡ s.items)
          × (d'.feeds ≡ s.feeds)
          × ((x : ImportRow) × (find (by_id id) d'.imports ≡ some x) × (x.status ≡ failed)))
unfolding process_opml_apply_job apply_found apply_import
unqueued_import_fails p allow now jitter faults room next_feed_id id d r s found e loop none_failed
      cut =
    let (items, feeds, row) = cut_off room now id s d r found cut in
    (
      rw none_failed refl,
      (
        finish_apply (some room) now id (some s) d,
        rw (get_for_worker-of_find id d.imports r found, e) (rw loop refl),
        items,
        feeds,
        row,
      ),
    )
