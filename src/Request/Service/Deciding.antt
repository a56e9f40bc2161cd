-- ===== src/Request/Service/Deciding.antt =====
-- src/request/request.service.ts: `cancelRequest`, `approveRequest` and `rejectRequest`.
use readyon.Base.{ℕ, Bool, not, ◌&&◌, ◌||◌, Option, none, some, ℤ, ltb_ℤ, ◌==◌, if◌then◌else◌}
use readyon.Types.{
  Text, or_default, hq, is_truthy, TimeOffRequestRow, RequestStatus, approved_pending_hcm, approved,
  rejected, cancelled, same_status, id_of, request, employee, manager, person, cancelled_action,
  approved_by_manager, rejected_by_manager, request_row, cancelled_meta, approved_meta,
  rejected_meta, pto_key, cancel_key, post_payload, cancel_payload, post_time_off, cancel_time_off,
}
use readyon.Errors.{
  validation_exception, not_found_exception, forbidden_exception, insufficient_balance_exception,
  version_conflict_exception, time_off_requests,
}
use readyon.Store.{M, pure, gets, raise_if, or_raise, generate_id, run_in_transaction, ◌>>=◌, ◌>>◌}
use readyon.StateMachine.{assert_valid_transition}
use readyon.Balance.Repository.{get_effective_available}
use readyon.Hold.Repository as Holds
use readyon.Request.Repository.{find_by_id, update_status, no_extra}
use readyon.Outbox.Repository as Outbox
use readyon.Audit

-- `!request || request.employee_id !== employeeId`
abbrev pub own : Text → Option TimeOffRequestRow → Option TimeOffRequestRow
own employee_id none = none
own employee_id (some r) = if r.employee_id == employee_id then some r else none

-- `request.manager_id && request.manager_id !== managerId`
abbrev pub is_other_manager : Option Text → Text → Bool
is_other_manager none manager_id = Bool.false
is_other_manager (some m) manager_id = is_truthy m && not (m == manager_id)

-- What `cancelRequest`, `approveRequest` and `rejectRequest` return of the updated row.
pub record UpdatedRequest : Type 0 where
  pub id : Text
  pub status : RequestStatus
  pub version : ℕ
  pub updated_at : Text

abbrev pub updated_view : TimeOffRequestRow → UpdatedRequest
updated_view r = record {
  id = r.id;
  status = r.status;
  version = r.version;
  updated_at = r.updated_at;
}

-- The transaction of `cancelRequest` after its guards, for the row that was read.
unfoldable pub cancel_row :
    TimeOffRequestRow → Text → Text → ℕ → Option Text → Option Text → M UpdatedRequest
unfolding generate_id
cancel_row r request_id employee_id version reason correlation_id = do
  updated ← update_status request_id cancelled version no_extra
  Holds.release request_id
  if same_status r.status approved_pending_hcm
      then Outbox.cancel_by_request_id request_id
      else pure tt
  if same_status r.status approved
      then (do
        uuid ← generate_id
        Outbox.create request_id cancel_time_off (cancel_key request_id uuid)
            (cancel_payload r.employee_id r.leave_type r.hcm_reference_id) none
        pure tt)
      else pure tt
  Audit.log (record {
    entity_type = request;
    entity_id = id_of request_id;
    action = cancelled_action;
    actor_type = employee;
    actor_id = person employee_id;
    before_state = some (request_row r);
    after_state = some (request_row updated);
    metadata = some (cancelled_meta reason r.status);
    correlation_id = correlation_id;
  })
  pure (updated_view updated)

-- The transaction of `cancelRequest`; `dto` is the version and the reason.
unfoldable pub cancel_request_tx : Text → Text → ℕ → Option Text → Option Text → M UpdatedRequest
cancel_request_tx request_id employee_id version reason correlation_id = do
  found ← gets (λ db. own employee_id (find_by_id request_id db))
  r ← or_raise found (not_found_exception time_off_requests (id_of request_id))
  assert_valid_transition r.status cancelled request_id
  raise_if (not (r.version == version))
      (version_conflict_exception time_off_requests (id_of request_id))
  cancel_row r request_id employee_id version reason correlation_id

unfoldable pub cancel_request : Text → Text → ℕ → Option Text → Option Text → M UpdatedRequest
cancel_request request_id employee_id version reason correlation_id =
    run_in_transaction (cancel_request_tx request_id employee_id version reason correlation_id)

-- The transaction of `approveRequest` after its guards, for the row that was read.
unfoldable pub approve_row :
    TimeOffRequestRow → Text → Text → ℕ → ℤ → Option Text → M UpdatedRequest
unfolding generate_id
approve_row r request_id manager_id version effective_available correlation_id = do
  updated ← update_status request_id approved_pending_hcm version no_extra
  uuid ← generate_id
  entry ←
      Outbox.create request_id post_time_off (pto_key request_id uuid)
        (post_payload r.employee_id r.leave_type r.start_date r.end_date r.hours_requested) none
  Audit.log (record {
    entity_type = request;
    entity_id = id_of request_id;
    action = approved_by_manager;
    actor_type = manager;
    actor_id = person manager_id;
    before_state = some (request_row r);
    after_state = some (request_row updated);
    metadata = some (approved_meta entry.id (pto_key request_id uuid) effective_available);
    correlation_id = correlation_id;
  })
  pure (updated_view updated)

-- The transaction of `approveRequest`.
unfoldable pub approve_request_tx : Text → Text → ℕ → Option Text → M UpdatedRequest
approve_request_tx request_id manager_id version correlation_id = do
  found ← gets (find_by_id request_id)
  r ← or_raise found (not_found_exception time_off_requests (id_of request_id))
  raise_if (is_other_manager r.manager_id manager_id) forbidden_exception
  assert_valid_transition r.status approved_pending_hcm request_id
  raise_if (not (r.version == version))
      (version_conflict_exception time_off_requests (id_of request_id))
  let loc = or_default r.location hq
  effective_available ←
      gets (get_effective_available r.employee_id r.leave_type loc (some request_id))
  raise_if (ltb_ℤ effective_available r.hours_requested)
      (insufficient_balance_exception effective_available r.hours_requested r.leave_type)
  approve_row r request_id manager_id version effective_available correlation_id

unfoldable pub approve_request : Text → Text → ℕ → Option Text → M UpdatedRequest
approve_request request_id manager_id version correlation_id =
    run_in_transaction (approve_request_tx request_id manager_id version correlation_id)

-- The transaction of `rejectRequest` after its guards, for the row that was read.
unfoldable pub reject_row :
    TimeOffRequestRow → Text → Text → ℕ → Text → Option Text → M UpdatedRequest
reject_row r request_id manager_id version rejection_reason correlation_id = do
  updated ←
      update_status request_id rejected version
        (record { rejection_reason = some rejection_reason; hcm_reference_id = none })
  Holds.release request_id
  Audit.log (record {
    entity_type = request;
    entity_id = id_of request_id;
    action = rejected_by_manager;
    actor_type = manager;
    actor_id = person manager_id;
    before_state = some (request_row r);
    after_state = some (request_row updated);
    metadata = some (rejected_meta rejection_reason);
    correlation_id = correlation_id;
  })
  pure (updated_view updated)

-- The transaction of `rejectRequest`.
unfoldable pub reject_request_tx : Text → Text → ℕ → Text → Option Text → M UpdatedRequest
reject_request_tx request_id manager_id version rejection_reason correlation_id = do
  found ← gets (find_by_id request_id)
  r ← or_raise found (not_found_exception time_off_requests (id_of request_id))
  raise_if (is_other_manager r.manager_id manager_id) forbidden_exception
  assert_valid_transition r.status rejected request_id
  raise_if (not (r.version == version))
      (version_conflict_exception time_off_requests (id_of request_id))
  reject_row r request_id manager_id version rejection_reason correlation_id

-- `trim` is that of JavaScript's strings.
unfoldable pub reject_request :
    (Text → Text) → Text → Text → ℕ → Text → Option Text → M UpdatedRequest
reject_request trim request_id manager_id version rejection_reason correlation_id = do
  raise_if (not (is_truthy rejection_reason) || not (is_truthy (trim rejection_reason)))
      validation_exception
  run_in_transaction
      (reject_request_tx request_id manager_id version rejection_reason correlation_id)
