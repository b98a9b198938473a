-- ===== src/Opml/Distinct.antt =====
-- Within one document, two new items have different hashes.
use feedpulse.Base.{
  ◌≡◌, refl, sym, ◌∙◌, subst, true, false, Option, none, some, List, [], ◌∷◌, String, eq_refl, All,
  All-imp, Bool-cases, inl, inr, arith,
}
use mathlib.Core.Bool.{false≢true}
use feedpulse.Opml.Tables.{
  ItemStatus, new, existing, duplicate, invalid, imported, failed, OpmlImportItemInput,
}
use feedpulse.Opml.Preview.{has_hash, check_seen, draft_items}

-- The item is new and has this hash.
abbrev pub IsNew : String → OpmlImportItemInput → Type 0
IsNew hash i = (i.item_status ≡ new) × (i.normalized_url_hash ≡ some hash)

abbrev pub Apart : OpmlImportItemInput → OpmlImportItemInput → Type 0
Apart i j = (hash : String) → IsNew hash i → IsNew hash j → ⊥

abbrev pub PairwiseApart : List OpmlImportItemInput → Type 0
PairwiseApart [] = Unit {0}
PairwiseApart (i ∷ items) = All (Apart i) items × PairwiseApart items

-- A new item with one of these hashes is not there.
abbrev pub Unseen : List String → OpmlImportItemInput → Type 0
Unseen seen i = (hash : String) → IsNew hash i → has_hash hash seen ≡ false

-- What the check of one item does: a new item stays new only with an unseen hash, which is seen then.
abbrev Checked : List String → OpmlImportItemInput × List String → Type 0
Checked seen (i, seen') =
    Unseen seen i
    × ((hash : String) → has_hash hash seen' ≡ false → has_hash hash seen ≡ false)
    × ((hash : String) → IsNew hash i → has_hash hash seen' ≡ true)

check_seen-Checked :
    (seen : List String) (i : OpmlImportItemInput) (status : ItemStatus) (hash : Option String)
    → i.item_status ≡ status
    → i.normalized_url_hash ≡ hash
    → Checked seen (check_seen seen i status hash)
unfolding check_seen
check_seen-Checked seen i new (some h) e f = elim (Bool-cases (has_hash h seen)) [
  | inl k ↦ rw k (λ q n. cc n.0, λ q z. z, λ q n. cc n.0)
  | inr k ↦
      let same = λ (q : String) (n : IsNew q i). let s : q ≡ h = cc (n.1) in s in
      rw k (
        λ q n. subst (λ x. has_hash x seen ≡ false) (sym (same q n)) k,
        λ q z. ground arith,
        λ q n. subst (λ x. has_hash x (h ∷ seen) ≡ true) (sym (same q n)) (rw (eq_refl h) refl),
      )
]
check_seen-Checked seen i new none e f = (λ q n. cc n.1, λ q z. z, λ q n. cc n.1)
check_seen-Checked seen i existing hash e f = (λ q n. cc n.0, λ q z. z, λ q n. cc n.0)
check_seen-Checked seen i duplicate hash e f = (λ q n. cc n.0, λ q z. z, λ q n. cc n.0)
check_seen-Checked seen i invalid hash e f = (λ q n. cc n.0, λ q z. z, λ q n. cc n.0)
check_seen-Checked seen i imported hash e f = (λ q n. cc n.0, λ q z. z, λ q n. cc n.0)
check_seen-Checked seen i failed hash e f = (λ q n. cc n.0, λ q z. z, λ q n. cc n.0)

-- The items of a draft.
pub draft-Apart :
    (seen : List String) (inputs : List OpmlImportItemInput)
    → All (Unseen seen) (draft_items seen inputs) × PairwiseApart (draft_items seen inputs)
unfolding draft_items
draft-Apart seen [] = (tt, tt)
draft-Apart seen (i ∷ inputs) =
    let (here, grows, sees) =
      check_seen-Checked seen i i.item_status i.normalized_url_hash refl refl in
    let rest = draft-Apart (check_seen seen i i.item_status i.normalized_url_hash).1 inputs in
    (
      (here, All-imp _ (Unseen seen) (λ j u h n. grows h (u h n)) _ rest.0),
      (All-imp _ _ (λ j u h m n. false≢true (sym (u h n) ∙ sees h m)) _ rest.0, rest.1),
    )
