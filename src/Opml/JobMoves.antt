-- ===== src/Opml/JobMoves.antt =====
-- What a confirmation and an apply job do to the status of an import.
use feedpulse.Base.{
  ℕ, ◌≡◌, refl, sym, ap, ◌∙◌, Bool, true, false, Option, none, some, List, ◌==◌, ==_iff, find,
  find-mem, find_of_mem, Bool-cases, inl, inr, str_eq, ◌&&◌, String, eq_of_same_key, &&-eq-true,
  Result, ok, err, ltb,
}
use feedpulse.Opml.Status.{
  OpmlImportStatus, uploaded, parsing, preview_ready, importing, completed, failed_validation,
  failed, assert_valid_opml_import_status_transition,
}
use feedpulse.Opml.Tables.{ImportRow, marked_row, mark_import_status, find_import_by_id_for_tenant}
use feedpulse.Opml.Marks.{by_id, find-mark_same}
use feedpulse.Opml.Lifecycle.{HasKey, Moves, Moves-refl, Moves-trans, Moves-mark}
use feedpulse.Opml.Urls.{UrlPlatform}
use feedpulse.Opml.Requests.{confirm_input, confirm_in}
use feedpulse.Opml.Apply.{Progress}
use feedpulse.Opml.ApplyJob.{
  Database, final_input, enqueue_created, finish_apply, apply_import, apply_found,
}

-- The lookup by id and tenant finds the row that the lookup by id finds.
pub by_tenant-by_id :
    (id : ℕ) (tenant_id : String) (imports : List ImportRow) (r : ImportRow)
    → HasKey imports
    → find_import_by_id_for_tenant id tenant_id imports ≡ some r
    → find (by_id id) imports ≡ some r
unfolding find_import_by_id_for_tenant
by_tenant-by_id id tenant_id imports r key found =
    let (m, h) = find-mem (λ r. (r.id == id) && str_eq r.tenant_id tenant_id) imports found in
    let own = (&&-eq-true (r.id == id) (str_eq r.tenant_id tenant_id) h).0 in
    let (s, e) = find_of_mem (by_id id) imports m own in
    let (n, k) = find-mem (by_id id) imports e in
    let same : s ≡ r =
      eq_of_same_key (λ x. x.id) imports key n m
        ((==_iff s.id id).0 k ∙ sym ((==_iff r.id id).0 own)) in
    e ∙ ap some same

pub confirm_in-Moves :
    (takes : Bool) (now id : ℕ) (imports : List ImportRow) (queue : List ℕ) (r : ImportRow)
    (status : OpmlImportStatus)
    → find (by_id id) imports ≡ some r
    → r.status ≡ status
    → Moves imports (confirm_in takes now id imports queue status).imports
unfolding confirm_in
confirm_in-Moves true now id imports queue r preview_ready found e =
    Moves-mark id now confirm_input imports r found (rw e (inr refl))
confirm_in-Moves false now id imports queue r preview_ready found e =
    Moves-mark id now confirm_input imports r found (rw e (inr refl))
confirm_in-Moves takes now id imports queue r importing found e = Moves-refl imports
confirm_in-Moves takes now id imports queue r completed found e = Moves-refl imports
confirm_in-Moves takes now id imports queue r uploaded found e = Moves-refl imports
confirm_in-Moves takes now id imports queue r parsing found e = Moves-refl imports
confirm_in-Moves takes now id imports queue r failed_validation found e = Moves-refl imports
confirm_in-Moves takes now id imports queue r failed found e = Moves-refl imports

finish_apply-Moves :
    (now id : ℕ) (s : Option Progress) (d : Database) (r : ImportRow)
    → find (by_id id) d.imports ≡ some r
    → r.status ≡ importing
    → Moves d.imports (finish_apply none now id s d).imports
unfolding finish_apply enqueue_created
finish_apply-Moves now id none d r found e = Moves-mark id now _ d.imports r found (rw e (inr refl))
finish_apply-Moves now id (some s) d r found e =
    Moves-mark id now (final_input id s) d.imports r found
      (elim (Bool-cases (ltb 0 s.failed_items)) [
        | inl f ↦ rw (e, f) (inr refl)
        | inr f ↦ rw (e, f) (inr refl)
      ])

-- A job that throws leaves the database as it was.
abbrev pub database_after : Database → Result Database → Database
database_after d (err e) = d
database_after d (ok d') = d'

module _ (p : UrlPlatform) (allow : Bool) (now : ℕ) (jitter : ℕ → ℕ) (faults : ℕ → Bool)
    (next_feed_id id : ℕ) (tenant_id : String) (d : Database) (r : ImportRow)
    (found : find (by_id id) d.imports ≡ some r) where
  begin_import-Moves :
      r.status ≡ preview_ready
      → Moves d.imports
          (apply_import p allow now jitter faults none next_feed_id id tenant_id
            (record d { imports = mark_import_status id now confirm_input d.imports })).imports
  unfolding apply_import
  begin_import-Moves e =
      Moves-trans (Moves-mark id now confirm_input d.imports r found (rw e (inr refl))) (
        finish_apply-Moves now id _
          (record d { imports = mark_import_status id now confirm_input d.imports })
          (marked_row now confirm_input r) (find-mark_same id now confirm_input d.imports r found)
          (unfold marked_row in refl))

  pub apply_found-Moves :
      (status : OpmlImportStatus)
      → r.status ≡ status
      → Moves d.imports
          (database_after d
            (apply_found p allow now jitter faults none next_feed_id id tenant_id d status)).imports
  unfolding apply_found apply_import assert_valid_opml_import_status_transition
  apply_found-Moves completed e = Moves-refl d.imports
  apply_found-Moves importing e = finish_apply-Moves now id _ d r found e
  apply_found-Moves preview_ready e = begin_import-Moves e
  apply_found-Moves uploaded e = Moves-refl d.imports
  apply_found-Moves parsing e = Moves-refl d.imports
  apply_found-Moves failed_validation e = Moves-refl d.imports
  apply_found-Moves failed e = Moves-refl d.imports
