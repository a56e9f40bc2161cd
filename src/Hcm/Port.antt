-- ===== src/Hcm/Port.antt =====
-- src/integration/hcm/hcm-adapter.port.ts: requests and responses of the HCM system, and the port
-- through which they go. An adapter's call ends with a response or an exception; its state is the
-- world when the call ends, with all that other tasks have done while it was awaited.
use readyon.Base.{ℤ, Option, List}
use readyon.Types.{Text, IdempotencyKey}
use readyon.Store.{M}

pub record HcmPostTimeOffRequest : Type 0 where
  pub idempotency_key : IdempotencyKey
  pub employee_id : Text
  pub leave_type : Text
  pub start_date : Text
  pub end_date : Text
  pub hours : ℤ
  pub correlation_id : Text

-- The reference is missing where the system's answer names it otherwise.
pub record HcmPostTimeOffResponse : Type 0 where
  pub hcm_reference_id : Option Text
  pub hcm_version : Text

pub record HcmCancelTimeOffRequest : Type 0 where
  pub idempotency_key : IdempotencyKey
  pub hcm_reference_id : Option Text
  pub employee_id : Text
  pub leave_type : Text
  pub correlation_id : Text

pub record HcmCancelTimeOffResponse : Type 0 where
  pub hcm_version : Text

pub record HcmGetBalanceResponse : Type 0 where
  pub employee_id : Text
  pub leave_type : Text
  pub total_balance : ℤ
  pub used_balance : ℤ
  pub hcm_version : Text

pub record HcmBalanceItem : Type 0 where
  pub employee_id : Text
  pub leave_type : Text
  pub total_balance : ℤ
  pub used_balance : ℤ
  pub hcm_version : Text

pub record HcmBatchBalancesResponse : Type 0 where
  pub checkpoint : Text
  pub items : List HcmBalanceItem

pub record HcmAdapterPort : Type 0 where
  -- employee_id, leave_type, correlation_id
  pub get_balance : Text → Text → Text → M HcmGetBalanceResponse
  pub post_time_off : HcmPostTimeOffRequest → M HcmPostTimeOffResponse
  pub cancel_time_off : HcmCancelTimeOffRequest → M HcmCancelTimeOffResponse
  -- since_checkpoint, correlation_id
  pub get_batch_balances : Text → Text → M HcmBatchBalancesResponse
