-- ===== src/Request/Service/Creating.antt =====
-- src/request/request.service.ts: `createRequest`.
use readyon.Base.{ℕ, Option, none, some, ℤ, ltb_ℤ, ltb, leb, is_none}
use readyon.Types.{
  Text, or_default, hq, RequestStatus, id_of, triple_of, request, employee, person, created_action,
  request_row, created_meta,
}
use readyon.Errors.{
  validation_exception, not_found_exception, insufficient_balance_exception,
  overlapping_request_exception, balance_projections,
}
use readyon.Store.{M, pure, gets, ask, raise_if, run_in_transaction, ◌>>=◌, ◌>>◌}
use readyon.Balance.Repository.{find_by_employee_and_type, get_effective_available}
use readyon.Hold.Repository as Holds
use readyon.Request.Repository as Requests
use readyon.Request.Repository.{has_overlap, find_by_id, update_status, no_extra, Extra}
use readyon.Audit

pub record CreateTimeOffRequestDto : Type 0 where
  pub leave_type : Text
  pub start_date : Text
  pub end_date : Text
  pub hours_requested : ℤ
  pub location : Option Text
  pub reason : Option Text

-- What `createRequest` returns.
pub record CreatedRequest : Type 0 where
  pub id : Text
  pub employee_id : Text
  pub leave_type : Text
  pub start_date : Text
  pub end_date : Text
  pub hours_requested : ℤ
  pub reason : Text
  pub status : RequestStatus
  pub hold_id : Text
  pub version : ℕ
  pub created_at : Text

abbrev pub to_params : Text → CreateTimeOffRequestDto → Requests.CreateParams
to_params employee_id dto = record {
  employee_id = employee_id;
  manager_id = none;
  leave_type = dto.leave_type;
  location = or_default dto.location hq;
  start_date = dto.start_date;
  end_date = dto.end_date;
  hours_requested = dto.hours_requested;
  reason = dto.reason;
}

-- The rows that the transaction of `createRequest` writes, once its guards have passed.
unfoldable pub write_request : Text → CreateTimeOffRequestDto → Option Text → ℤ → M CreatedRequest
write_request employee_id dto correlation_id effective_available = do
  r ← Requests.create (to_params employee_id dto)
  h ← Holds.create r.id employee_id dto.leave_type (or_default dto.location hq) dto.hours_requested
  Audit.log (record {
    entity_type = request;
    entity_id = id_of r.id;
    action = created_action;
    actor_type = employee;
    actor_id = person employee_id;
    before_state = none;
    after_state = some (request_row r);
    metadata = some (created_meta h.id effective_available);
    correlation_id = correlation_id;
  })
  pure (record {
    id = r.id;
    employee_id = r.employee_id;
    leave_type = r.leave_type;
    start_date = r.start_date;
    end_date = r.end_date;
    hours_requested = r.hours_requested;
    reason = r.reason;
    status = r.status;
    hold_id = h.id;
    version = r.version;
    created_at = r.created_at;
  })

-- The transaction of `createRequest`.
unfoldable pub create_request_tx : Text → CreateTimeOffRequestDto → Option Text → M CreatedRequest
create_request_tx employee_id dto correlation_id = do
  let loc = or_default dto.location hq
  projection ← gets (find_by_employee_and_type employee_id dto.leave_type loc)
  raise_if (is_none projection)
      (not_found_exception balance_projections (triple_of employee_id dto.leave_type loc))
  overlap ← gets (has_overlap employee_id dto.leave_type dto.start_date dto.end_date)
  raise_if overlap (overlapping_request_exception employee_id dto.start_date dto.end_date)
  effective_available ← gets (get_effective_available employee_id dto.leave_type loc none)
  raise_if (ltb_ℤ effective_available dto.hours_requested)
      (insufficient_balance_exception effective_available dto.hours_requested dto.leave_type)
  write_request employee_id dto correlation_id effective_available

unfoldable pub create_request : Text → CreateTimeOffRequestDto → Option Text → M CreatedRequest
create_request employee_id dto correlation_id = do
  raise_if (ltb dto.end_date dto.start_date) validation_exception
  today ← ask (λ w. w.day w.clock_ms)
  raise_if (leb dto.start_date today) validation_exception
  run_in_transaction (create_request_tx employee_id dto correlation_id)
