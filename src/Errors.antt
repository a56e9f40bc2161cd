-- ===== src/Errors.antt =====
-- The exceptions of src/common/exceptions/index.ts, and how
-- src/common/filters/http-exception.filter.ts answers them.
pub mod Filter
use readyon.Base.{ℕ, ℤ}
use readyon.Types.{
  Text, EntityId, RequestStatus, ErrorCode, HcmErrorCategory, validation_error,
  invalid_state_transition, not_found, forbidden, insufficient_balance, overlapping_request,
  version_conflict, duplicate_request, stale_batch, internal_error,
}

-- The tables of the database, as the names of resources in errors.
pub data Table : Type 0 where
  balance_projections time_off_requests balance_holds integration_outbox : Table
  integration_batches audit_logs idempotency_keys sync_checkpoints : Table

pub data AppError : Type 0 where
  validation_exception : AppError
  not_found_exception : Table → EntityId → AppError
  forbidden_exception : AppError
  -- available, requested, leave_type
  insufficient_balance_exception : ℤ → ℤ → Text → AppError
  -- employee_id, start_date, end_date
  overlapping_request_exception : Text → Text → Text → AppError
  version_conflict_exception : Table → EntityId → AppError
  invalid_state_transition_exception : RequestStatus → RequestStatus → Text → AppError
  duplicate_request_exception : Text → AppError
  stale_batch_exception : Text → Text → AppError
  -- category, hcmErrorCode, message
  hcm_error : HcmErrorCategory → Text → Text → AppError
  -- SqliteError: a statement broke a constraint of the table.
  sqlite_error : Table → AppError
  -- TypeError: a property of null.
  type_error : AppError

-- The `errorCode` that each exception passes to `AppException`; what is no `HttpException` is
-- answered with the filter's own body.
unfoldable pub error_code : AppError → ErrorCode
error_code validation_exception = validation_error
error_code (not_found_exception _ _) = not_found
error_code forbidden_exception = forbidden
error_code (insufficient_balance_exception _ _ _) = insufficient_balance
error_code (overlapping_request_exception _ _ _) = overlapping_request
error_code (version_conflict_exception _ _) = version_conflict
error_code (invalid_state_transition_exception _ _ _) = invalid_state_transition
error_code (duplicate_request_exception _) = duplicate_request
error_code (stale_batch_exception _ _) = stale_batch
error_code (hcm_error _ _ _) = internal_error
error_code (sqlite_error _) = internal_error
error_code type_error = internal_error

-- The status that `GlobalExceptionFilter.catch` sends.
unfoldable pub http_status : AppError → ℕ
http_status validation_exception = 400
http_status (not_found_exception _ _) = 404
http_status forbidden_exception = 403
http_status (insufficient_balance_exception _ _ _) = 409
http_status (overlapping_request_exception _ _ _) = 409
http_status (version_conflict_exception _ _) = 409
http_status (invalid_state_transition_exception _ _ _) = 400
http_status (duplicate_request_exception _) = 409
http_status (stale_batch_exception _ _) = 422
http_status (hcm_error _ _ _) = 500
http_status (sqlite_error _) = 500
http_status type_error = 500
