-- ===== src/Tests/Batches.antt =====
-- Examples of the batch synchronisation.
use readyon.Base.{◌≡◌, refl, none, some, [], ◌∷◌, List, pos, find_first, any, ℕ}
use readyon.Errors.{AppError, duplicate_request_exception}
use readyon.Store.{IsAtomic, Ensures, err}
use readyon.Balance.Repository.{find_by_employee_and_type}
use readyon.Batch.Repository as Batches
use readyon.Batch.Repository.{find_by_batch_id}
use readyon.Batch.Sync.{BatchSyncItem, process_item, process_items, process_batch, no_items}
use readyon.Batch.Items.{Applied, process_item-IsAtomic}
use readyon.Batch.Counts.{Recorded, process_batch-Recorded}
use readyon.Batch.Rounds.{InOrder, process_batch-InOrder}
use readyon.Batch.Versions.{NotOlder, process_items-NotOlder}
use readyon.Tests.Office.{office, tables}

-- Of the 10 hours that are left, the active holds take 12.
abbrev item : BatchSyncItem
item = record {
  employee_id = 5;
  leave_type = 7;
  location = none;
  total_balance = pos 40;
  used_balance = pos 30;
  hcm_version = 4;
}

abbrev stale_item : BatchSyncItem
stale_item = record item { hcm_version = 2 }

-- A second location, which the table's key refuses.
abbrev elsewhere : BatchSyncItem
elsewhere = record item { location = some 8 }

abbrev items : List BatchSyncItem
items = item ∷ stale_item ∷ elsewhere ∷ []

abbrev message : AppError → ℕ
message _ = 9

process_item-IsAtomic_example : IsAtomic tables (Applied item office) (process_item item office)
process_item-IsAtomic_example = process_item-IsAtomic item office

process_batch-Recorded_example :
    Ensures (Recorded message 900 items office) (process_batch message 900 items office)
unfolding find_by_batch_id find_first Batches.violates any
process_batch-Recorded_example = process_batch-Recorded message 900 items office refl refl

process_items-NotOlder_example :
    Ensures
      (λ _ w.
        NotOlder (find_by_employee_and_type 5 7 1 tables) (find_by_employee_and_type 5 7 1 w.db))
      (process_items message items no_items office)
process_items-NotOlder_example = process_items-NotOlder 5 7 1 message items no_items office

process_batch-InOrder_example :
    Ensures
      (λ result w.
        InOrder message 900 items office result w
        × ((other : List BatchSyncItem)
            → process_batch message 900 other w ≡ err (duplicate_request_exception 900) w))
      (process_batch message 900 items office)
unfolding find_by_batch_id find_first Batches.violates any
process_batch-InOrder_example = process_batch-InOrder message 900 items office refl refl
