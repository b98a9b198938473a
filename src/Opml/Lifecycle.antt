-- ===== src/Opml/Lifecycle.antt =====
-- The status of an import along the requests and jobs on it, against the table of transitions.
use feedpulse.Base.{
  ℕ, ◌≡◌, refl, subst, Bool, true, Option, none, some, List, ◌==◌, ==_iff, find, Bool-cases, ◌⊎◌,
  inl, inr, String, DistinctBy, DistinctBy-update, Result, ok, err,
}
use feedpulse.Feeds.Row.{FeedRow}
use feedpulse.Opml.Status.{
  OpmlImportStatus, uploaded, parsing, preview_ready, failed_validation, is_listed,
}
use feedpulse.Opml.Tables.{
  ImportRow, StatusInput, to_status, marked_row, mark_import_status, OpmlImportItemInput,
}
use feedpulse.Opml.Marks.{
  by_id, Follows, here, next, Follows-trans, find-mark_same, find-mark_other,
}
use feedpulse.Opml.Preview.{Tables, preview_input, finish_parse, parse_found}
use feedpulse.Opml.Urls.{UrlPlatform}

abbrev pub HasKey : List ImportRow → Type 0
HasKey imports = DistinctBy (λ r. r.id) imports

-- The key is kept, and every import is kept with a status that follows along the listed transitions.
pub record Moves (before after : List ImportRow) : Type 0 where
  pub keeps_key : HasKey before → HasKey after
  pub follows :
      (i : ℕ) (r : ImportRow)
      → find (by_id i) before ≡ some r
      → (s : ImportRow) × (find (by_id i) after ≡ some s) × Follows r.status s.status

pub Moves-refl : (imports : List ImportRow) → Moves imports imports
Moves-refl imports = record { keeps_key = λ k. k; follows = λ i r e. (r, e, here) }

pub Moves-trans : {a b c : List ImportRow} → Moves a b → Moves b c → Moves a c
Moves-trans m n = record {
  keeps_key = λ k. n.keeps_key (m.keeps_key k);
  follows = λ i r e.
      let (s, f, p) = m.follows i r e in
      let (t, g, q) = n.follows i s f in (t, g, Follows-trans p q);
}

-- The mark repeats the status, or follows one listed transition.
abbrev pub IsStep : OpmlImportStatus → OpmlImportStatus → Type 0
IsStep s t = (s ≡ t) ⊎ (is_listed s t ≡ true)

step-Follows : (s t : OpmlImportStatus) → IsStep s t → Follows s t
step-Follows s t (inl e) = subst (Follows s) e here
step-Follows s t (inr h) = next t here h

mark-keeps_key :
    (id now : ℕ) (input : StatusInput) (imports : List ImportRow)
    → HasKey imports
    → HasKey (mark_import_status id now input imports)
unfolding mark_import_status marked_row
mark-keeps_key id now input imports =
    DistinctBy-update (λ r. r.id) _ (marked_row now input) imports (λ r. refl)

marked-Follows :
    (id now : ℕ) (input : StatusInput) (imports : List ImportRow) (r s : ImportRow)
    → find (by_id id) imports ≡ some r
    → IsStep r.status input.status
    → find (by_id id) imports ≡ some s
    → (x : ImportRow) × (find (by_id id) (mark_import_status id now input imports) ≡ some x)
      × Follows s.status x.status
unfolding marked_row
marked-Follows id now input imports r s found step e =
    let row : r ≡ s = cc in
    (
      marked_row now input s,
      find-mark_same id now input imports s e,
      step-Follows s.status input.status
          (subst (λ (x : ImportRow). IsStep x.status input.status) row step),
    )

pub Moves-mark :
    (id now : ℕ) (input : StatusInput) (imports : List ImportRow) (r : ImportRow)
    → find (by_id id) imports ≡ some r
    → IsStep r.status input.status
    → Moves imports (mark_import_status id now input imports)
Moves-mark id now input imports r found step = record {
  keeps_key = mark-keeps_key id now input imports;
  follows = λ i s e. elim (Bool-cases (i == id)) [
    | inr ne ↦ (s, find-mark_other id now input imports i s e ne, here)
    | inl same ↦
        let k : i ≡ id = (==_iff i id).0 same in
        rw k (marked-Follows id now input imports r s found step (rw k at e))
  ];
}

finish_parse-Moves :
    (now next_id id : ℕ) (tenant_id : String) (t : Tables) (r : ImportRow)
    (result : Result (List OpmlImportItemInput))
    → find (by_id id) t.imports ≡ some r
    → IsStep r.status parsing
    → is_listed r.status failed_validation ≡ true
    → Moves t.imports (finish_parse now next_id id tenant_id t result).imports
unfolding finish_parse
finish_parse-Moves now next_id id tenant_id t r (err e) found step fails =
    Moves-mark id now _ t.imports r found (inr fails)
finish_parse-Moves now next_id id tenant_id t r (ok items) found step fails =
    let first = to_status parsing none in
    Moves-trans (Moves-mark id now first t.imports r found step) (
      Moves-mark id now (preview_input items) (mark_import_status id now first t.imports)
        (marked_row now first r) (find-mark_same id now first t.imports r found)
        (unfold marked_row in inr refl))

pub parse_found-Moves :
    (p : UrlPlatform) (allow : Bool) (max_bytes : ℕ) (failure : Option String)
    (feeds : List FeedRow) (now next_id id : ℕ) (opml_xml : List ℕ) (t : Tables) (r : ImportRow)
    (status : OpmlImportStatus)
    → find (by_id id) t.imports ≡ some r
    → r.status ≡ status
    → Moves t.imports
        (parse_found p allow max_bytes failure feeds now next_id id opml_xml t r status).imports
unfolding parse_found
parse_found-Moves p allow max_bytes failure feeds now next_id id opml_xml t r uploaded found e =
    finish_parse-Moves now next_id id r.tenant_id t r _ found (rw e (inr refl)) (rw e refl)
parse_found-Moves p allow max_bytes failure feeds now next_id id opml_xml t r parsing found e =
    finish_parse-Moves now next_id id r.tenant_id t r _ found (rw e (inl refl)) (rw e refl)
parse_found-Moves p allow max_bytes failure feeds now next_id id opml_xml t r preview_ready found
      e =
    Moves-refl t.imports
parse_found-Moves p allow max_bytes failure feeds now next_id id opml_xml t r _ found e =
    Moves-refl t.imports
