-- ===== src/Feeds/Disabling.antt =====
-- What becomes of a feed that its tenant disables.
use feedpulse.Base.{
  ℕ, ◌≤◌, ◌≡◌, refl, sym, ap, ◌∙◌, subst, inl, inr, true, false, none, some, String, List, Memᴰ,
  All, All-imp, All-of_mem, find, find-mem, find_of_mem, eq_of_same_key, update, mem-update,
  mem-update_of, Bool-cases, arith, if◌then◌else◌, ◌==◌, ==_iff, str_eq, &&-eq-true,
}
use feedpulse.Feeds.Row.{paused, FeedRow, map_feed, is_auto_paused}
use feedpulse.Feeds.Claim.{is_claimable, is_eligible}
use feedpulse.Feeds.Keys.{HasKey}
use feedpulse.Feeds.Editing.{
  update_feed, edit_row, disable, is_of_tenant, find_by_id_for_tenant, next_check_after_edit,
}

is_of_tenant-id :
    (id : ℕ) (tenant_id : String) (r : FeedRow) → is_of_tenant id tenant_id r ≡ true → r.id ≡ id
unfolding is_of_tenant
is_of_tenant-id id tenant_id r h =
    (==_iff r.id id).0 (&&-eq-true (r.id == id) (str_eq r.tenant_id tenant_id) h).0

module _ (now id : ℕ) (tenant_id : String) (rows : List FeedRow) (key : HasKey rows) (r : FeedRow)
    (listed : Memᴰ r rows) (own : is_of_tenant id tenant_id r ≡ true) where
  find-own : find (is_of_tenant id tenant_id) rows ≡ some r
  find-own =
      let (y, e) = find_of_mem (is_of_tenant id tenant_id) rows listed own in
      let (m, h) = find-mem (is_of_tenant id tenant_id) rows e in
      e
      ∙ ap some (
          eq_of_same_key (λ x. x.id) rows key m listed
            (is_of_tenant-id id tenant_id y h ∙ sym (is_of_tenant-id id tenant_id r own)))

  disable-eq :
      (disable now id tenant_id rows).0
      ≡ update
          (is_of_tenant id tenant_id)
          (edit_row now paused r.poll_interval_seconds r.next_check_at)
          rows
  unfolding disable update_feed find_by_id_for_tenant next_check_after_edit map_feed
  disable-eq = rw (find-own, update_feed)

  disabled-row :
      All
        (λ x. x.id ≡ id → x ≡ edit_row now paused r.poll_interval_seconds r.next_check_at r)
        (disable now id tenant_id rows).0
  unfolding edit_row
  disabled-row = subst (All _) (sym disable-eq) (
      All-of_mem _ _ λ x m e.
        let (s, n, f) =
          mem-update (is_of_tenant id tenant_id)
            (edit_row now paused r.poll_interval_seconds r.next_check_at) rows m in
        same s x n f e)
    where
      same :
          (s x : FeedRow)
          → Memᴰ s rows
          → x ≡ (
              if is_of_tenant id tenant_id s
              then edit_row now paused r.poll_interval_seconds r.next_check_at s
              else s)
          → x.id ≡ id
          → x ≡ edit_row now paused r.poll_interval_seconds r.next_check_at r
      same s x n f e = rw (one, own) at f
        where
          edited_id : s.id ≡ id
          edited_id = elim (Bool-cases (is_of_tenant id tenant_id s)) [
            | inl b ↦ is_of_tenant-id id tenant_id s b
            | inr b ↦ let kept : x ≡ s = rw b at f in ap (λ y. y.id) (sym kept) ∙ e
          ]

          one : s ≡ r
          one =
              eq_of_same_key (λ y. y.id) rows key n listed
                (edited_id ∙ sym (is_of_tenant-id id tenant_id r own))

  -- A disabled feed that carries no auto-pause mark is never claimable: no scheduler fetches it until
  -- an edit or a worker's report changes its row.
  disable-stops :
      is_auto_paused r.last_error ≡ false
      → All (λ x. x.id ≡ id → (t : ℕ) → is_claimable t x ≡ false) (disable now id tenant_id rows).0
  unfolding is_claimable is_eligible edit_row
  disable-stops unmarked =
      All-imp _ (λ x. x.id ≡ id → (t : ℕ) → is_claimable t x ≡ false)
        (λ x h e t. rw (h e, unmarked) (ground arith)) _ disabled-row

  -- A feed that was auto-paused stays claimable after its tenant has disabled it: the row is paused,
  -- unclaimed and due, and the claim query takes it.
  pub disabled_feed_still_claimable :
      (t : ℕ)
      → is_auto_paused r.last_error ≡ true
      → r.claimed_at ≡ none
      → r.next_check_at ≤ t
      → (x : FeedRow) × Memᴰ x (disable now id tenant_id rows).0
        × (x.id ≡ r.id)
        × (x.status ≡ paused)
        × (is_claimable t x ≡ true)
  unfolding is_claimable is_eligible edit_row
  disabled_feed_still_claimable t marked free due = (
    edit_row now paused r.poll_interval_seconds r.next_check_at r,
    subst (Memᴰ _) (sym disable-eq) (
        rw own at (
          mem-update_of (is_of_tenant id tenant_id)
            (edit_row now paused r.poll_interval_seconds r.next_check_at) rows listed)),
    refl,
    refl,
    rw (marked, free) (ground arith),
  )
