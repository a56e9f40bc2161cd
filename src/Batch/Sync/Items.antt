-- ===== src/Batch/Sync/Items.antt =====
-- src/integration/batch/batch-sync.service.ts: one item of a batch.
use readyon.Base.{ℕ, Option, none, some, List, [], ◌∷◌, ℤ, pos, ◌-ℤ◌, ltb_ℤ, leb, ⊤, if◌then◌else◌}
use readyon.Types.{
  Text, or_default, hq, TimeOffRequestRow, BalanceProjectionRow, BalanceHoldRow, BatchStatus,
  same_status, reconciliation_required, request, balance, hcm, system, id_of, pair_of, batch_sync,
  batch_created, batch_updated, flagged_reconciliation, hcm_balance, balance_row, holds_exceeded,
  flagged_meta, Snapshot,
}
use readyon.Store.{M, pure, gets, run_in_transaction, catch, ◌>>=◌, ◌>>◌}
use readyon.Balance.Repository as Balances
use readyon.Balance.Repository.{find_by_employee_and_type, update_from_hcm, get_active_holds_total}
use readyon.Hold.Repository.{find_active_by_employee_and_type}
use readyon.Request.Repository.{find_by_id, update_status, no_extra}
use readyon.Audit

pub record BatchSyncItem : Type 0 where
  pub employee_id : Text
  pub leave_type : Text
  pub location : Option Text
  pub total_balance : ℤ
  pub used_balance : ℤ
  pub hcm_version : Text

-- 'CREATED', 'UPDATED', 'SKIPPED_STALE' and 'FAILED'.
pub data ItemResult : Type 0 where
  created updated skipped_stale item_failed : ItemResult

pub record BatchSyncResult : Type 0 where
  pub batch_id : Text
  pub status : BatchStatus
  pub total_items : ℕ
  pub processed_items : ℕ
  pub skipped_items : ℕ
  pub failed_items : ℕ
  pub results : List (Text × Text × ItemResult)

abbrev item_snapshot : BatchSyncItem → Snapshot
item_snapshot item =
    hcm_balance item.employee_id item.leave_type item.location item.total_balance item.used_balance
      item.hcm_version

-- One round of the loop over the active holds, for the request of the hold.
unfoldable pub flag_request : ℤ → Text → Option TimeOffRequestRow → M ⊤
flag_request new_effective request_id none = pure tt
flag_request new_effective request_id (some r) =
    if same_status r.status reconciliation_required
    then pure tt
    else catch
        (do
          update_status request_id reconciliation_required r.version no_extra
          Audit.log (record {
            entity_type = request;
            entity_id = id_of request_id;
            action = flagged_reconciliation;
            actor_type = system;
            actor_id = batch_sync;
            before_state = none;
            after_state = none;
            metadata = some (flagged_meta new_effective);
            correlation_id = none;
          }))
        (λ _. pure tt)

unfoldable pub flag_requests : ℤ → List BalanceHoldRow → M ⊤
unfolding flag_request
flag_requests new_effective [] = pure tt
flag_requests new_effective (h ∷ holds) = do
  found ← gets (find_by_id h.request_id)
  flag_request new_effective h.request_id found
  flag_requests new_effective holds

-- The branch of `processItem` for a projection that is not there.
unfoldable pub create_item : BatchSyncItem → M ItemResult
create_item item = do
  Balances.create item.employee_id item.leave_type (or_default item.location hq) item.total_balance
      item.used_balance item.hcm_version
  Audit.log (record {
    entity_type = balance;
    entity_id = pair_of item.employee_id item.leave_type;
    action = batch_created;
    actor_type = hcm;
    actor_id = batch_sync;
    before_state = none;
    after_state = some (item_snapshot item);
    metadata = none;
    correlation_id = none;
  })
  pure created

-- The branch for a projection that is older than the item.
unfoldable pub update_item : BatchSyncItem → BalanceProjectionRow → M ItemResult
update_item item local = do
  let loc = or_default item.location hq
  update_from_hcm item.employee_id item.leave_type loc item.total_balance item.used_balance
      item.hcm_version local.version
  total_held ← gets (get_active_holds_total item.employee_id item.leave_type loc none)
  let new_effective = item.total_balance -ℤ item.used_balance -ℤ total_held
  if ltb_ℤ new_effective (pos 0)
      then (do
        active_holds ← gets (find_active_by_employee_and_type item.employee_id item.leave_type loc)
        flag_requests new_effective active_holds)
      else pure tt
  Audit.log (record {
    entity_type = balance;
    entity_id = pair_of item.employee_id item.leave_type;
    action = batch_updated;
    actor_type = hcm;
    actor_id = batch_sync;
    before_state = some (balance_row local);
    after_state = some (item_snapshot item);
    metadata = some (holds_exceeded (ltb_ℤ new_effective (pos 0)));
    correlation_id = none;
  })
  pure updated

-- Creates the projection, skips an item that is not newer, or updates the projection.
unfoldable pub process_item_tx : BatchSyncItem → M ItemResult
process_item_tx item = do
  found ←
      gets
        (find_by_employee_and_type item.employee_id item.leave_type (or_default item.location hq))
  elim found [
    | none ↦ create_item item
    | some local ↦
        if leb item.hcm_version local.hcm_version
        then pure skipped_stale
        else update_item item local
  ]

unfoldable pub process_item : BatchSyncItem → M ItemResult
process_item item = run_in_transaction (process_item_tx item)
