-- ===== src/Types/Rows.antt =====
-- The row types of src/common/types/index.ts, with the columns of
-- src/database/migrations/index.ts. Amounts of hours are whole multiples of one unit.
use readyon.Base.{ℕ, ℤ, Option, List, Bool, false, ◌&&◌, ◌==◌}
use readyon.Types.Texts.{Text}
use readyon.Types.Status.{
  RequestStatus, HoldStatus, OutboxStatus, OutboxAction, BatchStatus, HcmErrorCategory,
}

pub record BalanceProjectionRow : Type 0 where
  pub id : Text
  pub employee_id : Text
  pub leave_type : Text
  pub location : Option Text
  pub total_balance : ℤ
  pub used_balance : ℤ
  pub projected_available : ℤ
  pub hcm_version : Text
  pub version : ℕ
  pub created_at : Text
  pub updated_at : Text

pub record TimeOffRequestRow : Type 0 where
  pub id : Text
  pub employee_id : Text
  pub manager_id : Option Text
  pub leave_type : Text
  pub location : Option Text
  pub start_date : Text
  pub end_date : Text
  pub hours_requested : ℤ
  pub reason : Text
  pub status : RequestStatus
  pub rejection_reason : Option Text
  pub hcm_reference_id : Option Text
  pub version : ℕ
  pub created_at : Text
  pub updated_at : Text

pub record BalanceHoldRow : Type 0 where
  pub id : Text
  pub request_id : Text
  pub employee_id : Text
  pub leave_type : Text
  pub location : Option Text
  pub hold_amount : ℤ
  pub status : HoldStatus
  pub released_at : Option Text
  pub version : ℕ
  pub created_at : Text
  pub updated_at : Text

-- The two templates of an idempotency key: `pto-…-…` and `cancel-…-…`, of a request and a UUID.
pub data IdempotencyKey : Type 0 where
  pto_key cancel_key : Text → Text → IdempotencyKey

abbrev pub same_key : IdempotencyKey → IdempotencyKey → Bool
same_key (pto_key r u) (pto_key r' u') = r == r' && u == u'
same_key (cancel_key r u) (cancel_key r' u') = r == r' && u == u'
same_key (pto_key _ _) (cancel_key _ _) = false
same_key (cancel_key _ _) (pto_key _ _) = false

-- The JSON text of an outbox entry, by the object that it holds.
pub data Payload : Type 0 where
  -- employee_id, leave_type, start_date, end_date, hours
  post_payload : Text → Text → Text → Text → ℤ → Payload
  -- employee_id, leave_type, hcm_reference_id
  cancel_payload : Text → Text → Option Text → Payload

-- The texts of `last_error`: fixed ones, and those of an error that was caught.
pub data ErrorText : Type 0 where
  cancelled_by_employee invalid_request_state changed_during_call : ErrorText
  message_of : Text → ErrorText
  retries_exhausted : ErrorText → ErrorText

pub record IntegrationOutboxRow : Type 0 where
  pub id : Text
  pub request_id : Text
  pub action : OutboxAction
  pub idempotency_key : IdempotencyKey
  pub payload : Payload
  pub status : OutboxStatus
  pub retry_count : ℕ
  pub max_retries : ℕ
  pub next_retry_at : Option Text
  pub last_error : Option ErrorText
  pub error_category : Option HcmErrorCategory
  pub completed_at : Option Text
  pub created_at : Text
  pub updated_at : Text

pub record IntegrationBatchRow : Type 0 where
  pub id : Text
  pub batch_id : Text
  pub source : Text
  pub status : BatchStatus
  pub total_items : ℕ
  pub processed_items : ℕ
  pub skipped_items : ℕ
  pub failed_items : ℕ
  -- employee, leave type and message of each error
  pub error_summary : Option (List (Text × Text × Text))
  pub started_at : Text
  pub completed_at : Option Text
  pub created_at : Text
  pub updated_at : Text

-- A row of idempotency_keys; the response is the text of its JSON.
pub record IdempotencyRow : Type 0 where
  pub key : Text
  pub payload_hash : Text
  pub response : Text
  pub status_code : ℕ
  pub created_at : Text
  pub expires_at : Text
