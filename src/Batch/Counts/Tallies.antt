-- ===== src/Batch/Counts/Tallies.antt =====
-- src/integration/batch/batch-sync.service.ts: the counts while the items of a batch are processed.
use readyon.Base.{◌≡◌, refl, ◌∙◌, ap, List, [], ◌∷◌, ℕ, ◌+◌, arith, length, length-append}
use readyon.Types.{Text}
use readyon.Errors.{AppError}
use readyon.Store.{World, Db, Outcome, ok, err, IsAtomic, Ensures}
use readyon.Store.Returns.{and_then, ensure_more}
use readyon.Batch.Sync.{
  BatchSyncItem, ItemResult, created, updated, skipped_stale, item_failed, Tally, count_item,
  count_failure, process_item, process_one, process_items,
}
use readyon.Batch.Items.{Applied, process_item-IsAtomic}

abbrev pub total : Tally → ℕ
total t = t.processed + t.skipped + t.failed

-- So many items more are counted, each with a result; each failure has an error.
abbrev pub Counted : ℕ → Tally → Tally → Type 0
Counted n t t' =
    (total t' ≡ total t + n)
    × (length t'.results ≡ length t.results + n)
    × (length t'.errors + t.failed ≡ length t.errors + t'.failed)

count_item-Counted :
    (item : BatchSyncItem) (r : ItemResult) (t : Tally) → Counted 1 t (count_item item r t)
count_item-Counted item created t =
    (omega arith, omega (arith, length-append t.results), omega arith)
count_item-Counted item updated t =
    (omega arith, omega (arith, length-append t.results), omega arith)
count_item-Counted item skipped_stale t =
    (omega arith, omega (arith, length-append t.results), omega arith)
count_item-Counted item item_failed t =
    (omega arith, omega (arith, length-append t.results), omega arith)

count_failure-Counted :
    (item : BatchSyncItem) (text : Text) (t : Tally) → Counted 1 t (count_failure item text t)
count_failure-Counted item text t =
    (omega arith, omega (arith, length-append t.results), omega (arith, length-append t.errors))

-- An item leaves the batches alone.
Applied-batches :
    (item : BatchSyncItem) (w w' : World) (r : ItemResult)
    → Applied item w r w'
    → w'.db.batches ≡ w.db.batches
Applied-batches item w w' created (_, others, _, _) = others.2
Applied-batches item w w' skipped_stale (_, _, _, same) = ap (λ (db : Db). db.batches) same
Applied-batches item w w' updated (_, _, _, others, _, _) = others.2
Applied-batches item w w' item_failed never = absurd never

module _ (message : AppError → Text) where
  -- So many items are counted, and the batches are as before.
  abbrev pub CountedIn : ℕ → Tally → World → Tally → World → Type 0
  CountedIn n t w t' w' = Counted n t t' × (w'.db.batches ≡ w.db.batches)

  counted_outcome :
      (item : BatchSyncItem) (t : Tally) (w : World) (r : Outcome ItemResult)
      → IsAtomic w.db (Applied item w) r
      → Ensures
          (CountedIn 1 t w)
          (elim (elim r as (λ _. Outcome Tally) [
            | ok a w' ↦ ok (count_item item a t) w'
            | err e w' ↦ err e w'
          ])
            as (λ _. Outcome Tally) [
              | ok t' w' ↦ ok t' w'
              | err e w' ↦ ok (count_failure item (message e) t) w'
            ])
  counted_outcome item t w (ok r w') h =
      (count_item-Counted item r t, Applied-batches item w w' r h)
  counted_outcome item t w (err e w') h =
      (count_failure-Counted item (message e) t, ap (λ (db : Db). db.batches) h)

  process_one-Counted :
      (item : BatchSyncItem) (t : Tally) (w : World)
      → Ensures (CountedIn 1 t w) (process_one message item t w)
  unfolding process_one
  process_one-Counted item t w =
      counted_outcome item t w (process_item item w) (process_item-IsAtomic item w)

  pub process_items-Counted :
      (items : List BatchSyncItem) (t : Tally) (w : World)
      → Ensures (CountedIn (length items) t w) (process_items message items t w)
  unfolding process_items
  process_items-Counted [] t w = ((omega arith, omega arith, omega arith), refl)
  process_items-Counted (item ∷ items) t w =
      and_then (CountedIn 1 t w) (CountedIn (length (item ∷ items)) t w)
        (process_one message item t w) (process_items message items) (process_one-Counted item t w)
        (λ t1 w1 (one, same).
          ensure_more (CountedIn (length items) t1 w1) (CountedIn (length (item ∷ items)) t w)
            (process_items message items t1 w1) (process_items-Counted items t1 w1)
            (λ t2 w2 (more, same'). (
              (
                omega (arith, one.0, more.0),
                omega (arith, one.1, more.1),
                omega (arith, one.2, more.2),
              ),
              same' ∙ same,
            )))
