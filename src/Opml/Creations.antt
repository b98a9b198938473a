-- ===== src/Opml/Creations.antt =====
-- What an upload does to the table of imports: the row that it adds, at an id above all others.
use feedpulse.Base.{
  ℕ, suc, max, ◌≤◌, ◌≢◌, Bool, true, false, List, [], ◌∷◌, ◌++◌, All, All-append, find-append,
  String, Result, ok, err, arith, if◌then◌else◌, plain_error,
}
use feedpulse.Opml.Tables.{ImportRow, created_import}
use feedpulse.Opml.Marks.{by_id, here}
use feedpulse.Opml.Lifecycle.{HasKey, Moves, Moves-refl}
use feedpulse.Opml.Requests.{Requested, validate_upload, create_opml_import}

-- An id of the table's sequence: above every id of the table, from 1.
unfoldable pub next_import_id : List ImportRow → ℕ
next_import_id [] = 1
next_import_id (r ∷ imports) = max (suc r.id) (next_import_id imports)

next_import_id-fresh :
    (imports : List ImportRow) (id : ℕ) → next_import_id imports ≤ id → All (λ r. r.id ≢ id) imports
unfolding next_import_id
next_import_id-fresh [] id h = tt
next_import_id-fresh (r ∷ imports) id h =
    (λ e. omega (arith, h, e), next_import_id-fresh imports id (omega (arith, h)))

HasKey-last :
    (imports : List ImportRow) (new : ImportRow)
    → All (λ r. r.id ≢ new.id) imports
    → HasKey imports
    → HasKey (imports ++ new ∷ [])
HasKey-last [] new h k = (tt, tt)
HasKey-last (r ∷ imports) new h k =
    (All-append (λ s. r.id ≢ s.id) imports _ k.0 (h.0, tt), HasKey-last imports new h.1 k.1)

append-Moves :
    (imports : List ImportRow) (new : ImportRow)
    → All (λ r. r.id ≢ new.id) imports
    → Moves imports (imports ++ new ∷ [])
append-Moves imports new h = record {
  keeps_key = HasKey-last imports new h;
  follows = λ i r e. (r, find-append (by_id i) imports (new ∷ []) r e, here);
}

-- What a validated upload does to the table, by the result of the validation.
uploaded_rows : Bool → List ImportRow → ImportRow → List ℕ → Result (Unit {0}) → Requested ℕ
uploaded_rows takes imports new queue (err e) = record {
  imports = imports;
  queue = queue;
  answer = err e;
}
uploaded_rows takes imports new queue (ok _) =
    if takes
    then record { imports = imports ++ new ∷ []; queue = queue ++ new.id ∷ []; answer = ok new.id }
    else record {
      imports = imports ++ new ∷ [];
      queue = queue;
      answer = err (plain_error "enqueue");
    }

uploaded_rows-Moves :
    (takes : Bool) (imports : List ImportRow) (new : ImportRow) (queue : List ℕ)
    (result : Result (Unit {0}))
    → next_import_id imports ≤ new.id
    → Moves imports (uploaded_rows takes imports new queue result).imports
unfolding uploaded_rows
uploaded_rows-Moves takes imports new queue (err e) above = Moves-refl imports
uploaded_rows-Moves true imports new queue (ok _) above =
    append-Moves imports new (next_import_id-fresh imports new.id above)
uploaded_rows-Moves false imports new queue (ok _) above =
    append-Moves imports new (next_import_id-fresh imports new.id above)

-- An upload at a fresh id leaves every import as it is, whether it is refused, or queued, or not taken
-- by the queue.
pub create_opml_import-Moves :
    (takes : Bool) (max_bytes id now : ℕ) (tenant_id file_name : String) (lower_file_name : List ℕ)
    (lower_mime_type : String) (size : ℕ) (checksum : String) (imports : List ImportRow)
    (queue : List ℕ)
    → next_import_id imports ≤ id
    → Moves imports
        (create_opml_import takes max_bytes id now tenant_id file_name lower_file_name
          lower_mime_type size checksum imports queue).imports
unfolding create_opml_import created_import uploaded_rows validate_upload
create_opml_import-Moves takes max_bytes id now tenant_id file_name lower_file_name lower_mime_type
      size checksum imports queue above =
    uploaded_rows-Moves takes imports (created_import id now tenant_id file_name size checksum)
      queue (validate_upload max_bytes lower_file_name lower_mime_type size) above
