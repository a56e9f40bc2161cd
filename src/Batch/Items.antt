-- ===== src/Batch/Items.antt =====
-- `BatchSyncService.processItem`: one balance of the HCM system, in a transaction.
use readyon.Base.{
  ◌≡◌, refl, not, ◌||◌, Option, none, some, ◌<◌, ◌≤◌, ℤ, pos, ◌-ℤ◌, ltb_ℤ, leb, arith, Bool-cases,
  Option-cases, inl, inr, if◌then◌else◌, any,
}
use readyon.Types.{Text, or_default, hq, BalanceProjectionRow}
use readyon.Store.{World, Returns, IsAtomic, now_iso}
use readyon.Store.Returns.{transaction, followed_by}
use readyon.Balance.Repository as Balances
use readyon.Balance.Repository.{
  find_by_employee_and_type, get_active_holds_total, new_projection, overwrite, clashes,
  is_projection_row, update_from_hcm,
}
use readyon.Balance.Updates.{
  with_projection, Replaced, Inserted, breaks, update_projection_ok, update_projection_err,
}
use readyon.Hold.Repository.{find_active_by_employee_and_type}
use readyon.Batch.Sync.{
  BatchSyncItem, ItemResult, created, updated, skipped_stale, item_failed, create_item, update_item,
  process_item, process_item_tx,
}
use readyon.Batch.Flags.{AllFlagged, AllFlagged-same, OnlyFlags, FlagsAll, flag_requests-FlagsAll}
use readyon.Audit

-- No hold, outbox entry, batch or idempotency key is touched.
abbrev pub OthersKept : World → World → Type 0
OthersKept w w' =
    (w'.db.holds ≡ w.db.holds)
    × (w'.db.entries ≡ w.db.entries)
    × (w'.db.batches ≡ w.db.batches)
    × (w'.db.keys ≡ w.db.keys)

module _ (item : BatchSyncItem) (w : World) where
  abbrev pub loc : Text
  loc = or_default item.location hq

  abbrev pub known : Option BalanceProjectionRow
  known = find_by_employee_and_type item.employee_id item.leave_type loc w.db

  abbrev pub inserted : BalanceProjectionRow
  inserted =
      new_projection item.employee_id item.leave_type loc item.total_balance item.used_balance
        item.hcm_version (w.uuid w.drawn) (now_iso w)

  abbrev pub rewrite_row : BalanceProjectionRow → BalanceProjectionRow
  rewrite_row = overwrite item.total_balance item.used_balance item.hcm_version (now_iso w)

  -- What the item leaves available.
  abbrev pub new_effective : ℤ
  new_effective =
      item.total_balance
      -ℤ item.used_balance
      -ℤ get_active_holds_total item.employee_id item.leave_type loc none w.db

  -- The tables that an item leaves, by its result.
  abbrev pub Applied : ItemResult → World → Type 0
  Applied created w' =
      (known ≡ none)
      × OthersKept w w'
      × (w'.db.requests ≡ w.db.requests)
      × Inserted inserted w.db w'.db
  Applied skipped_stale w' =
      (p : BalanceProjectionRow) × (known ≡ some p)
      × (item.hcm_version ≤ p.hcm_version)
      × (w'.db ≡ w.db)
  Applied updated w' =
      (p : BalanceProjectionRow) × (known ≡ some p)
      × (p.hcm_version < item.hcm_version)
      × OthersKept w w'
      × Replaced item.employee_id item.leave_type loc p.version rewrite_row w.db w'.db
      × (if ltb_ℤ new_effective (pos 0)
          then AllFlagged
              (find_active_by_employee_and_type item.employee_id item.leave_type loc w.db) w'.db
            × OnlyFlags w w'
          else w'.db.requests ≡ w.db.requests)
  Applied item_failed w' = ⊥

  create_item-Applied : known ≡ none → Returns Applied (create_item item w)
  unfolding create_item Balances.create Audit.log
  create_item-Applied absent =
      elim (Bool-cases
        (any (clashes inserted) w.db.projections || not (is_projection_row inserted))) [
          | inl bad ↦ rw (bad, Returns) tt
          | inr fine ↦
              rw (fine, Returns) (absent, (refl, refl, refl, refl), refl, (ground arith, refl))
        ]

  module _ (p : BalanceProjectionRow) (found : known ≡ some p)
      (newer : p.hcm_version < item.hcm_version) where
    abbrev rewritten : World
    rewritten = record w {
      db = with_projection item.employee_id item.leave_type loc p.version rewrite_row w.db;
    }

    update_item-Applied : Returns Applied (update_item item p w)
    unfolding update_item update_from_hcm Audit.log get_active_holds_total
        find_active_by_employee_and_type
    update_item-Applied =
        elim (Bool-cases (breaks item.employee_id item.leave_type loc p.version rewrite_row w.db)) [
          | inl bad ↦
              rw
                (
                  update_projection_err item.employee_id item.leave_type loc p.version rewrite_row w
                      bad,
                  Returns,
                )
                tt
          | inr fine ↦
              let update =
                update_projection_ok item.employee_id item.leave_type loc rewrite_row (λ q. refl) w
                  p found fine in
              elim (Bool-cases (ltb_ℤ new_effective (pos 0))) [
                | inl over ↦
                    rw (update, over, Returns)
                      (followed_by
                        (λ _.
                          FlagsAll
                            (find_active_by_employee_and_type item.employee_id item.leave_type loc
                              w.db)
                            rewritten)
                        Applied _ _ (flag_requests-FlagsAll _ _ rewritten)
                        (λ _ w2 (framed, all, only). (
                          p,
                          found,
                          newer,
                          (framed.1, framed.2, framed.3, framed.4),
                          (fine, framed.0),
                          rw over (AllFlagged-same _ w2.db _ refl all, only),
                        )))
                | inr covered ↦
                    rw (update, covered, Returns)
                      (p, found, newer, (refl, refl, refl, refl), (fine, refl), rw covered refl)
              ]
        ]

  process_item_tx-Applied : Returns Applied (process_item_tx item w)
  unfolding process_item_tx
  process_item_tx-Applied = elim (Option-cases known) [
    | inl absent ↦ rw (absent, Returns) (create_item-Applied absent)
    | inr (p, found) ↦ elim (Bool-cases (leb item.hcm_version p.hcm_version)) [
      | inl stale ↦ rw (found, stale, Returns) (p, found, ground arith, refl)
      | inr newer ↦ rw (found, newer, Returns) (update_item-Applied p found (ground arith))
    ]
  ]

  -- `processItem` either raises and changes no table; or it creates a projection that was not there,
  -- with the item's balances; or it changes nothing, if the item is not newer than the projection;
  -- or the projection was older, and gets the item's balances. Then, if the active holds exceed what
  -- is left, each of their requests is flagged for reconciliation and every other is flagged or found
  -- as before, and otherwise no request changes.
  -- No hold, outbox entry, batch or idempotency key is touched.
  pub process_item-IsAtomic : IsAtomic w.db Applied (process_item item w)
  unfolding process_item
  process_item-IsAtomic = transaction Applied (process_item_tx item) w process_item_tx-Applied
