-- ===== src/Batch/Rounds.antt =====
-- What `BatchSyncService.processBatch` does with each item, in the order of the batch.
use readyon.Base.{
  ◌≡◌, refl, ◌∙◌, ap, ◌⊎◌, inl, inr, Bool, true, false, none, List, [], ◌∷◌, ◌++◌, ◌+◌, arith,
  count_where,
}
use readyon.Types.{Text}
use readyon.Errors.{AppError, duplicate_request_exception}
use readyon.Store.{World, Outcome, ok, err, IsAtomic, Ensures}
use readyon.Store.Returns.{and_then, ensure_more, ensure_both}
use readyon.Batch.Repository as Batches
use readyon.Batch.Repository.{find_by_batch_id, update_counts}
use readyon.Batch.Sync.{
  BatchSyncItem, BatchSyncResult, ItemResult, created, updated, skipped_stale, item_failed, Tally,
  no_items, count_item, count_failure, process_item, process_one, process_items, process_batch,
}
use readyon.Batch.Items.{Applied, process_item-IsAtomic}
use readyon.Batch.Counts.{batch, with_batch, create_lem, process_batch_once}

-- One item: it is applied with its result, or it raises and leaves the tables alone.
abbrev pub Round : BatchSyncItem → World → ItemResult → World → Type 0
Round item w r w' =
    Applied item w r w'
    ⊎ ((e : AppError) × (process_item item w ≡ err e w') × (r ≡ item_failed) × (w'.db ≡ w.db))

-- The rounds of a list of items, in its order and one for each, with their results.
pub data Rounds : List BatchSyncItem → World → List ItemResult → World → Type 0 where
  all_done : {w : World} → Rounds [] w [] w
  round_then :
      {w w1 w' : World} (item : BatchSyncItem) (items : List BatchSyncItem) (r : ItemResult)
      (rs : List ItemResult)
      → Round item w r w1
      → Rounds items w1 rs w'
      → Rounds (item ∷ items) w (r ∷ rs) w'

-- The results with the employees and leave types of their items.
abbrev pub labelled : List BatchSyncItem → List ItemResult → List (Text × Text × ItemResult)
labelled (item ∷ items) (r ∷ rs) = (item.employee_id, item.leave_type, r) ∷ labelled items rs
labelled _ _ = []

abbrev pub is_processed : ItemResult → Bool
is_processed created = true
is_processed updated = true
is_processed _ = false

abbrev pub is_skipped : ItemResult → Bool
is_skipped skipped_stale = true
is_skipped _ = false

abbrev pub is_failed : ItemResult → Bool
is_failed item_failed = true
is_failed _ = false

-- A tally goes on by these results.
abbrev pub CountedOn : List BatchSyncItem → List ItemResult → Tally → Tally → Type 0
CountedOn items rs t t' =
    (t'.results ≡ t.results ++ labelled items rs)
    × (t'.processed ≡ t.processed + count_where is_processed rs)
    × (t'.skipped ≡ t.skipped + count_where is_skipped rs)
    × (t'.failed ≡ t.failed + count_where is_failed rs)

count_item-CountedOn :
    (item : BatchSyncItem) (w w' : World) (r : ItemResult) (t : Tally)
    → Applied item w r w'
    → CountedOn (item ∷ []) (r ∷ []) t (count_item item r t)
unfolding count_where
count_item-CountedOn item w w' created t h = (refl, omega arith, omega arith, omega arith)
count_item-CountedOn item w w' updated t h = (refl, omega arith, omega arith, omega arith)
count_item-CountedOn item w w' skipped_stale t h = (refl, omega arith, omega arith, omega arith)
count_item-CountedOn item w w' item_failed t never = absurd never

count_failure-CountedOn :
    (item : BatchSyncItem) (text : Text) (t : Tally)
    → CountedOn (item ∷ []) (item_failed ∷ []) t (count_failure item text t)
unfolding count_where
count_failure-CountedOn item text t = (refl, omega arith, omega arith, omega arith)

append_nil : {A : Type 0} (xs : List A) → xs ≡ xs ++ []
append_nil [] = refl
append_nil (x ∷ xs) = ap (λ l. x ∷ l) (append_nil xs)

append_assoc : {A : Type 0} (xs ys zs : List A) → (xs ++ ys) ++ zs ≡ xs ++ (ys ++ zs)
append_assoc [] ys zs = refl
append_assoc (x ∷ xs) ys zs = ap (λ l. x ∷ l) (append_assoc xs ys zs)

CountedOn-cons :
    (item : BatchSyncItem) (items : List BatchSyncItem) (r : ItemResult) (rs : List ItemResult)
    (t t1 t' : Tally)
    → CountedOn (item ∷ []) (r ∷ []) t t1
    → CountedOn items rs t1 t'
    → CountedOn (item ∷ items) (r ∷ rs) t t'
unfolding count_where
CountedOn-cons item items r rs t t1 t' one more = (
  more.0 ∙ ap (λ l. l ++ labelled items rs) one.0 ∙ append_assoc t.results _ _,
  omega (arith, one.1, more.1),
  omega (arith, one.2, more.2),
  omega (arith, one.3, more.3),
)

module _ (message : AppError → Text) where
  -- What the loop over items ensures.
  abbrev Done : List BatchSyncItem → Tally → World → Tally → World → Type 0
  Done items t w t' w' = (rs : List ItemResult) × Rounds items w rs w' × CountedOn items rs t t'

  one_outcome :
      (item : BatchSyncItem) (t : Tally) (w : World) (r : Outcome ItemResult)
      → process_item item w ≡ r
      → IsAtomic w.db (Applied item w) r
      → Ensures
          (λ t' w'. (x : ItemResult) × Round item w x w' × CountedOn (item ∷ []) (x ∷ []) t t')
          (elim (elim r as (λ _. Outcome Tally) [
            | ok a w' ↦ ok (count_item item a t) w'
            | err e w' ↦ err e w'
          ])
            as (λ _. Outcome Tally) [
              | ok t' w' ↦ ok t' w'
              | err e w' ↦ ok (count_failure item (message e) t) w'
            ])
  one_outcome item t w (ok r w') q h = (r, inl h, count_item-CountedOn item w w' r t h)
  one_outcome item t w (err e w') q h =
      (item_failed, inr (e, q, refl, h), count_failure-CountedOn item (message e) t)

  process_items-Done :
      (items : List BatchSyncItem) (t : Tally) (w : World)
      → Ensures (Done items t w) (process_items message items t w)
  unfolding process_items process_one count_where
  process_items-Done [] t w =
      ([], all_done, (append_nil t.results, omega arith, omega arith, omega arith))
  process_items-Done (item ∷ items) t w =
      and_then (λ t' w'. (x : ItemResult) × Round item w x w' × CountedOn (item ∷ []) (x ∷ []) t t')
        (Done (item ∷ items) t w) (process_one message item t w) (process_items message items)
        (one_outcome item t w (process_item item w) refl (process_item-IsAtomic item w))
        (λ t1 w1 (x, done, one).
          ensure_more (Done items t1 w1) (Done (item ∷ items) t w)
            (process_items message items t1 w1) (process_items-Done items t1 w1)
            (λ t2 w2 (rs, more, counted). (
              x ∷ rs,
              round_then item items x rs done more,
              CountedOn-cons item items x rs t t1 t2 one counted,
            )))

module _ (message : AppError → Text) (batch_id : Text) (items : List BatchSyncItem)
    (w : World) where
  -- The rounds of the items begin with the batch's row, their results are the result's, in order and
  -- each counted as what it is, and after the last only the row of the batch changes.
  abbrev pub InOrder : BatchSyncResult → World → Type 0
  InOrder result w' =
      (rs : List ItemResult) × (w1 : World) × Rounds items (with_batch message batch_id items w) rs
        w1
      × (result.results ≡ labelled items rs)
      × (result.processed_items ≡ count_where is_processed rs)
      × (result.skipped_items ≡ count_where is_skipped rs)
      × (result.failed_items ≡ count_where is_failed rs)
      × (w'.db ≡ record w1.db { batches = w'.db.batches })

  in_order :
      find_by_batch_id batch_id w.db ≡ none
      → Batches.violates (batch message batch_id items w) w.db ≡ false
      → Ensures InOrder (process_batch message batch_id items w)
  unfolding process_batch update_counts
  in_order new fine =
      let opened = with_batch message batch_id items w in
      rw (new, create_lem message batch_id items w fine, Ensures)
        (and_then (Done message items no_items opened) InOrder
          (process_items message items no_items opened) _
          (process_items-Done message items no_items opened)
          (λ t w1 (rs, rounds, counted). (
            rs,
            w1,
            rounds,
            counted.0,
            omega (arith, counted.1),
            omega (arith, counted.2),
            omega (arith, counted.3),
            refl,
          )))

  -- A batch under an identifier that no batch has, with a fresh row identifier, has one round for
  -- each of its items, in their order, however the others end: the item is applied with its result,
  -- or it raises, changes no table and has the result of a failure. The batch's result lists these
  -- results with the employees and leave types of their items, in order, and counts each as
  -- processed, skipped or failed; after the last item only the row of the batch changes. After that
  -- every batch under the same identifier is refused as a duplicate, and changes nothing.
  pub process_batch-InOrder :
      find_by_batch_id batch_id w.db ≡ none
      → Batches.violates (batch message batch_id items w) w.db ≡ false
      → Ensures
          (λ result w'.
            InOrder result w'
            × ((other : List BatchSyncItem)
                → process_batch message batch_id other w'
                  ≡ err (duplicate_request_exception batch_id) w'))
          (process_batch message batch_id items w)
  process_batch-InOrder new fine =
      ensure_both _ _ (process_batch message batch_id items w) (in_order new fine)
        (λ other. process_batch_once message batch_id items w other new fine)
