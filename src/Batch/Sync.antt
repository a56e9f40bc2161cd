-- ===== src/Batch/Sync.antt =====
-- src/integration/batch/batch-sync.service.ts
pub mod Items
unfoldable pub use Items.*
use readyon.Base.{
  ℕ, ◌+◌, Option, none, some, List, [], ◌∷◌, ◌++◌, ℤ, pos, ◌-ℤ◌, ltb_ℤ, ltb, leb, length, ⊤,
  if◌then◌else◌, is_none, not, map,
}
use readyon.Types.{
  Text, or_default, hq, TimeOffRequestRow, BalanceProjectionRow, BalanceHoldRow, BatchStatus,
  same_status, reconciliation_required, request, balance, hcm, system, id_of, pair_of, batch_sync,
  batch_created, batch_updated, flagged_reconciliation, hcm_balance, balance_row, holds_exceeded,
  flagged_meta, Snapshot,
}
use readyon.Errors.{AppError, duplicate_request_exception}
use readyon.Store.{
  M, pure, gets, ask, raise_if, modify, generate_id, run_in_transaction, catch, ◌>>=◌, ◌>>◌,
}
use readyon.Balance.Repository as Balances
use readyon.Balance.Repository.{find_by_employee_and_type, update_from_hcm, get_active_holds_total}
use readyon.Hold.Repository.{find_active_by_employee_and_type}
use readyon.Request.Repository.{find_by_id, update_status, no_extra}
use readyon.Batch.Repository as Batches
use readyon.Batch.Repository.{find_by_batch_id, update_counts, final_status}
use readyon.Hcm.Port.{HcmAdapterPort, HcmBalanceItem, HcmBatchBalancesResponse}
use readyon.Audit

-- The variables of the loop of `processBatch`.
pub record Tally : Type 0 where
  pub processed : ℕ
  pub skipped : ℕ
  pub failed : ℕ
  pub errors : List (Text × Text × Text)
  pub results : List (Text × Text × ItemResult)

abbrev pub no_items : Tally
no_items = record { processed = 0; skipped = 0; failed = 0; errors = []; results = [] }

abbrev pub count_item : BatchSyncItem → ItemResult → Tally → Tally
count_item item r t =
    let rest = t.results ++ (item.employee_id, item.leave_type, r) ∷ [] in
    elim r [
      | created ↦ record t { processed = t.processed + 1; results = rest }
      | updated ↦ record t { processed = t.processed + 1; results = rest }
      | _ ↦ record t { skipped = t.skipped + 1; results = rest }
    ]

abbrev pub count_failure : BatchSyncItem → Text → Tally → Tally
count_failure item text t = record t {
  failed = t.failed + 1;
  errors = t.errors ++ (item.employee_id, item.leave_type, text) ∷ [];
  results = t.results ++ (item.employee_id, item.leave_type, item_failed) ∷ [];
}

-- `message` is the text of an exception.
module _ (message : AppError → Text) where
  unfoldable pub process_one : BatchSyncItem → Tally → M Tally
  process_one item t =
      catch (do r ← process_item item; pure (count_item item r t))
        (λ e. pure (count_failure item (message e) t))

  unfoldable pub process_items : List BatchSyncItem → Tally → M Tally
  unfolding process_one
  process_items [] t = pure t
  process_items (item ∷ items) t = do t' ← process_one item t; process_items items t'

  unfoldable pub process_batch : Text → List BatchSyncItem → M BatchSyncResult
  process_batch batch_id items = do
    existing ← gets (find_by_batch_id batch_id)
    raise_if (not (is_none existing)) (duplicate_request_exception batch_id)
    b ← Batches.create batch_id (length items)
    t ← process_items items no_items
    update_counts b.id t.processed t.skipped t.failed t.errors
    pure (record {
      batch_id = batch_id;
      status = final_status t.processed t.failed;
      total_items = length items;
      processed_items = t.processed;
      skipped_items = t.skipped;
      failed_items = t.failed;
      results = t.results;
    })

  -- '1970-01-01T00:00:00Z' is the start of time; an item of the HCM system has no location.
  abbrev to_item : HcmBalanceItem → BatchSyncItem
  to_item i = record {
    employee_id = i.employee_id;
    leave_type = i.leave_type;
    location = none;
    total_balance = i.total_balance;
    used_balance = i.used_balance;
    hcm_version = i.hcm_version;
  }

  -- `epoch` is the text '1970-01-01T00:00:00Z', and `pull_id` makes 'pull-…' of a time.
  module _ (port : HcmAdapterPort) (epoch : Text) (pull_id : Text → Text) where
    unfoldable pub pull_batch : HcmBatchBalancesResponse → M (Option BatchSyncResult)
    pull_batch response = elim response.items [
      | [] ↦ pure none
      | i ∷ is ↦ do
        batch_id ← ask (λ w. pull_id (w.iso w.clock_ms))
        result ← process_batch batch_id (map to_item (i ∷ is))
        if ltb 0 result.processed_items
            then modify (λ db. record db { checkpoint = some response.checkpoint })
            else pure tt
        pure (some result)
    ]

    unfoldable pub pull_from_hcm : M (Option BatchSyncResult)
    unfolding generate_id
    pull_from_hcm =
        catch
          (do
            checkpoint ← gets (λ db. or_default db.checkpoint epoch)
            correlation_id ← generate_id
            response ← port.get_batch_balances checkpoint correlation_id
            pull_batch response)
          (λ _. pure none)
