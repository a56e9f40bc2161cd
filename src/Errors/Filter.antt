-- ===== src/Errors/Filter.antt =====
-- The bodies that src/common/filters/http-exception.filter.ts sends, with the `details` of
-- src/common/exceptions/index.ts.
use readyon.Base.{ℕ, ℤ, ◌≡◌, refl, Option, none, some}
use readyon.Types.{Text, or_null, EntityId, RequestStatus, ErrorCode, internal_error}
use readyon.Errors.{
  Table, AppError, validation_exception, not_found_exception, forbidden_exception,
  insufficient_balance_exception, overlapping_request_exception, version_conflict_exception,
  invalid_state_transition_exception, duplicate_request_exception, stale_batch_exception, hcm_error,
  sqlite_error, type_error, error_code, http_status,
}

pub data Details : Type 0 where
  no_details : Details
  -- resource, id
  resource_details : Table → EntityId → Details
  -- available, requested, leave_type
  balance_details : ℤ → ℤ → Text → Details
  -- employee_id, start_date, end_date
  period_details : Text → Text → Text → Details
  -- current_status, attempted_status, request_id
  transition_details : RequestStatus → RequestStatus → Text → Details
  -- idempotency_key
  key_details : Text → Details
  -- employee_id, leave_type
  stale_details : Text → Text → Details

-- The `details` of an `AppException`, which no caller gives to the first and the third; none for an
-- error of another class.
unfoldable pub details_of : AppError → Option Details
details_of validation_exception = some no_details
details_of (not_found_exception resource id) = some (resource_details resource id)
details_of forbidden_exception = some no_details
details_of (insufficient_balance_exception available requested leave_type) =
    some (balance_details available requested leave_type)
details_of (overlapping_request_exception employee_id start_date end_date) =
    some (period_details employee_id start_date end_date)
details_of (version_conflict_exception resource id) = some (resource_details resource id)
details_of (invalid_state_transition_exception current attempted request_id) =
    some (transition_details current attempted request_id)
details_of (duplicate_request_exception idempotency_key) = some (key_details idempotency_key)
details_of (stale_batch_exception employee_id leave_type) =
    some (stale_details employee_id leave_type)
details_of (hcm_error _ _ _) = none
details_of (sqlite_error _) = none
details_of type_error = none

pub record ErrorBody : Type 0 where
  pub status_code : ℕ
  pub error : ErrorCode
  pub message : Text
  pub details : Option Details
  pub timestamp : Text
  pub correlation_id : Option Text

-- The status and the body; `raised` is the time at which an `AppException` was made, whose own body
-- replaces the filter's.
unfoldable pub catch_exception :
    (AppError → Text) → Option Text → Text → Text → AppError → ℕ × ErrorBody
catch_exception message correlation_id raised now e = elim (details_of e) [
  | none ↦ (
    500,
    record {
      status_code = 500;
      error = internal_error;
      message = message e;
      details = none;
      timestamp = now;
      correlation_id = or_null correlation_id;
    },
  )
  | some details ↦ (
    http_status e,
    record {
      status_code = http_status e;
      error = error_code e;
      message = message e;
      details = some details;
      timestamp = raised;
      correlation_id = or_null correlation_id;
    },
  )
]

module _ (message : AppError → Text) (correlation_id : Option Text) (raised now : Text) where
  -- The status line, the body's status and the body's code agree for every error, also for one that
  -- is answered with the filter's defaults.
  pub catch_exception_lem :
      (e : AppError)
      → ((catch_exception message correlation_id raised now e).0 ≡ http_status e)
        × ((catch_exception message correlation_id raised now e).1.status_code ≡ http_status e)
        × ((catch_exception message correlation_id raised now e).1.error ≡ error_code e)
  unfolding catch_exception details_of http_status error_code
  catch_exception_lem validation_exception = (refl, refl, refl)
  catch_exception_lem (not_found_exception _ _) = (refl, refl, refl)
  catch_exception_lem forbidden_exception = (refl, refl, refl)
  catch_exception_lem (insufficient_balance_exception _ _ _) = (refl, refl, refl)
  catch_exception_lem (overlapping_request_exception _ _ _) = (refl, refl, refl)
  catch_exception_lem (version_conflict_exception _ _) = (refl, refl, refl)
  catch_exception_lem (invalid_state_transition_exception _ _ _) = (refl, refl, refl)
  catch_exception_lem (duplicate_request_exception _) = (refl, refl, refl)
  catch_exception_lem (stale_batch_exception _ _) = (refl, refl, refl)
  catch_exception_lem (hcm_error _ _ _) = (refl, refl, refl)
  catch_exception_lem (sqlite_error _) = (refl, refl, refl)
  catch_exception_lem type_error = (refl, refl, refl)
