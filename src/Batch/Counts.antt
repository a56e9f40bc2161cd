-- ===== src/Batch/Counts.antt =====
-- `BatchSyncService.processBatch`: its counts and the row of the batch.
pub mod Tallies
unfoldable pub use Tallies.*
use readyon.Base.{
  ◌≡◌, refl, ◌∙◌, ap, false, ◌==◌, ==_self, none, some, List, [], ◌∷◌, ◌++◌, ℕ, ◌+◌, arith, length,
  length-append, find_first, find_first-append_none, find_first-update_where, any-or_left,
  any-or_right, update_where,
}
use readyon.Types.{Text, IntegrationBatchRow}
use readyon.Errors.{AppError, duplicate_request_exception}
use readyon.Store.{World, Db, Outcome, ok, err, IsAtomic, Ensures, now_iso}
use readyon.Store.Returns.{and_then, ensure_more}
use readyon.Batch.Repository as Batches
use readyon.Batch.Repository.{
  find_by_id, find_by_batch_id, new_batch, set_counts, update_counts, final_status,
}
use readyon.Batch.Sync.{
  BatchSyncItem, BatchSyncResult, ItemResult, created, updated, skipped_stale, item_failed, Tally,
  no_items, count_item, count_failure, process_item, process_one, process_items, process_batch,
}
use readyon.Batch.Items.{Applied, process_item-IsAtomic}

refused :
    (message : AppError → Text) (batch_id : Text) (items : List BatchSyncItem) (w : World)
    (b : IntegrationBatchRow)
    → find_by_batch_id batch_id w.db ≡ some b
    → process_batch message batch_id items w ≡ err (duplicate_request_exception batch_id) w
unfolding process_batch
refused message batch_id items w b found = rw found

module _ (message : AppError → Text) (batch_id : Text) (items : List BatchSyncItem)
    (w : World) where
  abbrev pub batch : IntegrationBatchRow
  batch = new_batch batch_id (length items) (w.uuid w.drawn) (now_iso w)

  abbrev pub with_batch : World
  with_batch = record w {
    drawn = w.drawn + 1;
    db = record w.db { batches = w.db.batches ++ batch ∷ [] };
  }

  pub create_lem :
      Batches.violates batch w.db ≡ false
      → Batches.create batch_id (length items) w ≡ ok batch with_batch
  unfolding Batches.create find_by_id Batches.violates
  create_lem fine = rw fine (
      rw (
        find_first-append_none (λ (b : IntegrationBatchRow). b.id == w.uuid w.drawn) w.db.batches
          batch (any-or_left _ (λ b. b.batch_id == batch_id) w.db.batches fine)
          (==_self (w.uuid w.drawn))))

  -- The batch's row, once its counts are set.
  abbrev pub counted_row : Tally → Text → IntegrationBatchRow
  counted_row t now = set_counts t.processed t.skipped t.failed t.errors now batch

  -- The result's counts add up to the number of items, and the batch's row has the same.
  abbrev pub Recorded : BatchSyncResult → World → Type 0
  Recorded r w' =
      (t : Tally) × (t.processed + t.skipped + t.failed ≡ length items)
      × (length t.results ≡ length items)
      × (length t.errors ≡ t.failed)
      × (r ≡ record {
        batch_id = batch_id;
        status = final_status t.processed t.failed;
        total_items = length items;
        processed_items = t.processed;
        skipped_items = t.skipped;
        failed_items = t.failed;
        results = t.results;
      })
      × (find_by_batch_id batch_id w'.db ≡ some (counted_row t (now_iso w')))

  found_batch :
      (t : Tally) (now : Text)
      → Batches.violates batch w.db ≡ false
      → find_by_batch_id batch_id w.db ≡ none
      → find_first
          (λ (b : IntegrationBatchRow). b.batch_id == batch_id)
          (update_where
            (λ b. b.id == w.uuid w.drawn)
            (set_counts t.processed t.skipped t.failed t.errors now)
            with_batch.db.batches)
        ≡ some (counted_row t now)
  unfolding Batches.violates find_by_batch_id
  found_batch t now fine new =
      let p = λ (b : IntegrationBatchRow). b.batch_id == batch_id in
      rw
        (find_first-update_where p (λ b. b.id == w.uuid w.drawn)
          (set_counts t.processed t.skipped t.failed t.errors now) (λ y. refl) with_batch.db.batches
          batch
          (find_first-append_none p w.db.batches batch
            (any-or_right (λ b. b.id == w.uuid w.drawn) p w.db.batches fine) (==_self batch_id)))
        (rw (==_self (w.uuid w.drawn)))

  batch_of :
      (t : Tally) (w2 : World)
      → w2.db.batches ≡ with_batch.db.batches
      → Batches.violates batch w.db ≡ false
      → find_by_batch_id batch_id w.db ≡ none
      → find_by_batch_id batch_id (record w2.db {
        batches =
            update_where
              (λ (b : IntegrationBatchRow). b.id == w.uuid w.drawn)
              (set_counts t.processed t.skipped t.failed t.errors (now_iso w2))
              w2.db.batches;
      })
        ≡ some (counted_row t (now_iso w2))
  unfolding find_by_batch_id
  batch_of t w2 same fine new = rw same (found_batch t (now_iso w2) fine new)

  -- A batch under an identifier that no batch has, with a fresh row identifier, is processed to its
  -- end whatever becomes of its items: processed, skipped and failed items add up to all, each item
  -- has one result, each failure one error, and the batch's row records the same counts.
  pub process_batch-Recorded :
      find_by_batch_id batch_id w.db ≡ none
      → Batches.violates batch w.db ≡ false
      → Ensures Recorded (process_batch message batch_id items w)
  unfolding process_batch update_counts
  process_batch-Recorded new fine =
      rw (new, create_lem fine, Ensures)
        (and_then (CountedIn message (length items) no_items with_batch) Recorded
          (process_items message items no_items with_batch) _
          (process_items-Counted message items no_items with_batch)
          (λ t w2 (counted, same). (
            t,
            omega (arith, counted.0),
            omega (arith, counted.1),
            omega (arith, counted.2),
            refl,
            batch_of t w2 same fine new,
          )))

  -- A batch is processed once: after it, every batch under the same identifier is refused as a
  -- duplicate, and changes nothing.
  pub process_batch_once :
      (other : List BatchSyncItem)
      → find_by_batch_id batch_id w.db ≡ none
      → Batches.violates batch w.db ≡ false
      → Ensures
          (λ _ w'.
            process_batch message batch_id other w' ≡ err (duplicate_request_exception batch_id) w')
          (process_batch message batch_id items w)
  process_batch_once other new fine =
      ensure_more Recorded _ (process_batch message batch_id items w)
        (process_batch-Recorded new fine)
        (λ r w' (t, _, _, _, _, found). refused message batch_id other w' _ found)
