-- ===== src/Integration.antt =====
-- src/integration/integration.controller.ts: balances that the HCM system sends over the API.
pub mod Update
pub mod MockFailures
use readyon.Base.{
  ℕ, Bool, not, Option, none, some, List, [], ◌∷◌, ℤ, leb, ⊤, if◌then◌else◌, ◌||◌, true, false,
}
use readyon.Types.{
  Text, or_default, hq, is_truthy, BalanceProjectionRow, balance, hcm, pair_of, hcm_single_update,
  single_update, version_meta,
}
use readyon.Errors.{AppError, validation_exception, stale_batch_exception}
use readyon.Store.{M, pure, raise, gets, raise_if, run_in_transaction, ◌>>=◌, ◌>>◌}
use readyon.Balance.Repository as Balances
use readyon.Balance.Repository.{find_by_employee_and_type, update_from_hcm, get_effective_available}
use readyon.Batch.Sync.{BatchSyncItem, BatchSyncResult, process_batch}
use readyon.Idempotency.{idempotent}
use readyon.Audit

pub record SingleBalanceUpdateDto : Type 0 where
  pub employee_id : Text
  pub leave_type : Text
  pub location : Option Text
  pub total_balance : ℤ
  pub used_balance : ℤ
  pub hcm_version : Text

-- 'UPDATED' or 'CREATED', as `was_known`.
pub record BalanceUpdated : Type 0 where
  pub employee_id : Text
  pub leave_type : Text
  pub was_known : Bool
  pub previous_balance : Option ℤ
  pub new_balance : ℤ
  pub effective_available : ℤ

-- The projection is created, or updated if the sent version is newer.
unfoldable pub write_balance : SingleBalanceUpdateDto → Option BalanceProjectionRow → M ⊤
write_balance dto none = do
  Balances.create dto.employee_id dto.leave_type (or_default dto.location hq) dto.total_balance
      dto.used_balance dto.hcm_version
  pure tt
write_balance dto (some local) =
    if leb dto.hcm_version local.hcm_version
    then raise (stale_batch_exception dto.employee_id dto.leave_type)
    else do
      update_from_hcm dto.employee_id dto.leave_type (or_default dto.location hq) dto.total_balance
          dto.used_balance dto.hcm_version local.version
      pure tt

abbrev pub total_of : Option BalanceProjectionRow → Option ℤ
total_of none = none
total_of (some p) = some p.total_balance

abbrev pub is_some : Option BalanceProjectionRow → Bool
is_some none = false
is_some (some _) = true

-- `sync_mock` is the `setBalance` of a mock adapter, which has a memory of its own, or nothing.
module _ (sync_mock : M ⊤) (dto : SingleBalanceUpdateDto) (correlation_id : Option Text) where
  unfoldable pub update_balance_tx : M BalanceUpdated
  update_balance_tx = do
    let loc = or_default dto.location hq
    local ← gets (find_by_employee_and_type dto.employee_id dto.leave_type loc)
    write_balance dto local
    sync_mock
    effective_available ← gets (get_effective_available dto.employee_id dto.leave_type loc none)
    Audit.log (record {
      entity_type = balance;
      entity_id = pair_of dto.employee_id dto.leave_type;
      action = single_update;
      actor_type = hcm;
      actor_id = hcm_single_update;
      before_state = none;
      after_state = none;
      metadata = some (version_meta dto.hcm_version);
      correlation_id = correlation_id;
    })
    pure (record {
      employee_id = dto.employee_id;
      leave_type = dto.leave_type;
      was_known = is_some local;
      previous_balance = total_of local;
      new_balance = dto.total_balance;
      effective_available = effective_available;
    })

  -- The handler, with its idempotency key, the payload's hash and the response's text.
  unfoldable pub single_balance_update : (BalanceUpdated → Text) → Text → Option Text → M Text
  single_balance_update json hash header =
      idempotent json hash 200 (run_in_transaction update_balance_tx) header

abbrev is_empty : List BatchSyncItem → Bool
is_empty [] = true
is_empty (_ ∷ _) = false

unfoldable pub batch_sync : (AppError → Text) → Text → List BatchSyncItem → M BatchSyncResult
batch_sync message batch_id items = do
  raise_if (not (is_truthy batch_id) || is_empty items) validation_exception
  process_batch message batch_id items
