-- ===== src/Opml/Marks.antt =====
-- What a mark of an import's status does to the lookups of the table.
use feedpulse.Base.{
  ℕ, ◌≡◌, refl, ap, ◌∙◌, Bool, true, false, Option, some, List, [], ◌∷◌, ◌==◌, ==_iff,
  if◌then◌else◌, find, update, find-mem, Bool-cases, inl, inr,
}
use mathlib.Core.Option
use feedpulse.Opml.Status.{OpmlImportStatus, is_listed}
use feedpulse.Opml.Tables.{ImportRow, StatusInput, marked_row, mark_import_status}

module _ {ℓ} {A : Type ℓ} where
  -- A lookup by columns that the UPDATE leaves alone finds the updated row.
  pub find-update :
      (p q : A → Bool) (f : A → A) (rows : List A)
      → ((r : A) → p (f r) ≡ p r)
      → find p (update q f rows) ≡ Option.map (λ r. if q r then f r else r) (find p rows)
  unfolding find update
  find-update p q f [] h = refl
  find-update p q f (r ∷ rows) h = elim (Bool-cases (q r)) [
    | inl e ↦ elim (Bool-cases (p r)) [
      | inl k ↦ rw (e, h r, k) (rw e refl)
      | inr k ↦ rw (e, h r, k) (find-update p q f rows h)
    ]
    | inr e ↦ elim (Bool-cases (p r)) [
      | inl k ↦ rw (e, k) (rw e refl)
      | inr k ↦ rw (e, k) (find-update p q f rows h)
    ]
  ]

abbrev pub by_id : ℕ → ImportRow → Bool
by_id id r = r.id == id

abbrev pub status_of : ℕ → List ImportRow → Option OpmlImportStatus
status_of id imports = Option.map (λ r. r.status) (find (by_id id) imports)

-- The way from one status to another along the listed transitions.
pub data Follows (s : OpmlImportStatus) : OpmlImportStatus → Type 0 where
  here : Follows s s
  next :
      {t : OpmlImportStatus} (u : OpmlImportStatus)
      → Follows s t
      → is_listed t u ≡ true
      → Follows s u

pub Follows-trans : {s t u : OpmlImportStatus} → Follows s t → Follows t u → Follows s u
Follows-trans f here = f
Follows-trans f (next u g h) = next u (Follows-trans f g) h

module _ (id now : ℕ) (input : StatusInput) (imports : List ImportRow) where
  pub find-mark :
      (p : ImportRow → Bool)
      → ((r : ImportRow) → p (marked_row now input r) ≡ p r)
      → (r : ImportRow) → find p imports ≡ some r
      → find p (mark_import_status id now input imports)
        ≡ some (if r.id == id then marked_row now input r else r)
  unfolding mark_import_status
  find-mark p h r e =
      find-update p (λ r. r.id == id) (marked_row now input) imports h
      ∙ ap (Option.map (λ r. if r.id == id then marked_row now input r else r)) e

  pub find-mark_same :
      (r : ImportRow)
      → find (by_id id) imports ≡ some r
      → find (by_id id) (mark_import_status id now input imports) ≡ some (marked_row now input r)
  unfolding marked_row
  find-mark_same r e =
      let own = (find-mem (by_id id) imports e).1 in
      find-mark (by_id id) (λ r. refl) r e ∙ rw own refl

  pub find-mark_other :
      (i : ℕ) (r : ImportRow)
      → find (by_id i) imports ≡ some r
      → (i == id) ≡ false
      → find (by_id i) (mark_import_status id now input imports) ≡ some r
  unfolding marked_row
  find-mark_other i r e ne =
      let own : r.id ≡ i = (==_iff r.id i).0 (find-mem (by_id i) imports e).1 in
      find-mark (by_id i) (λ r. refl) r e ∙ rw own (rw ne refl)
