-- ===== src/Api.antt =====
-- The controllers that change requests: src/request/employee-request.controller.ts and
-- src/request/manager-request.controller.ts.
pub mod Creation
pub mod Reads
use readyon.Base.{ℕ, Option, none, some, if◌then◌else◌, ◌==◌}
use readyon.Types.{Text, is_given}
use readyon.Store.{M}
use readyon.Request.Service.{
  CreateTimeOffRequestDto, CreatedRequest, UpdatedRequest, create_request, cancel_request,
  approve_request, reject_request,
}
use readyon.Idempotency.{idempotent}

-- `a || b` on headers, which may be missing.
abbrev pub or_header : Option Text → Text → Text
or_header none b = b
or_header (some a) b = if a == 0 then b else a

-- The headers that the controllers read.
pub record Headers : Type 0 where
  pub employee_id : Text
  pub manager_id : Option Text
  pub idempotency_key : Option Text
  pub correlation_id : Option Text

-- `hash` is the payload's hash; `json` gives the response text of a result.
module _ (hash : Text) (headers : Headers) where
  unfoldable pub post_request : (CreatedRequest → Text) → CreateTimeOffRequestDto → M Text
  post_request json dto =
      idempotent json hash 201 (create_request headers.employee_id dto headers.correlation_id)
        headers.idempotency_key

  module _ (json : UpdatedRequest → Text) (request_id : Text) (version : ℕ) where
    unfoldable pub post_cancel : Option Text → M Text
    post_cancel reason =
        idempotent json hash 200
          (cancel_request request_id headers.employee_id version reason headers.correlation_id)
          headers.idempotency_key

    unfoldable pub post_approve : M Text
    post_approve =
        idempotent json hash 200
          (approve_request request_id (or_header headers.manager_id headers.employee_id) version
            headers.correlation_id)
          headers.idempotency_key

    unfoldable pub post_reject : (Text → Text) → Text → M Text
    post_reject trim rejection_reason =
        idempotent json hash 200
          (reject_request trim request_id (or_header headers.manager_id headers.employee_id) version
            rejection_reason headers.correlation_id)
          headers.idempotency_key
