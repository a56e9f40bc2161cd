-- ===== src/Api/Reads.antt =====
-- The GET handlers of src/request/employee-request.controller.ts and
-- src/request/manager-request.controller.ts, src/health/health.controller.ts, and the correlation id
-- of src/common/interceptors/correlation-id.interceptor.ts.
use Prim.Native.Nat.{◌/◌}
use readyon.Base.{ℕ, ◌-◌, ℤ, pos, Bool, Option, none, some}
use readyon.Types.{Text, or_null, TimeOffRequestRow}
use readyon.Store.{Db, M, pure, generate_id}
use readyon.Request.Repository.{Filters}
use readyon.Request.Reads.{HoldView, Page, get_request, list_requests, list_pending_approvals}
use readyon.Outbox.Repository.{get_outbox_depth}
use readyon.Batch.Repository.{get_last_batch_time}
use readyon.Api.{Headers, or_header}

-- `limit ? parseInt(limit, 10) : 20`, for a limit that is a number.
abbrev or_twenty : Option ℤ → ℤ
or_twenty none = pos 20
or_twenty (some n) = n

unfoldable pub fetch_requests : Headers → Filters → Option Text → Option ℤ → Db → Page
fetch_requests headers filters cursor limit db =
    list_requests headers.employee_id filters cursor (or_twenty limit) db

unfoldable pub fetch_pending_approvals : Headers → Option Text → Option ℤ → Db → Page
fetch_pending_approvals headers cursor limit db =
    list_pending_approvals (or_header headers.manager_id headers.employee_id) cursor
      (or_twenty limit) db

unfoldable pub fetch_request : Headers → Text → M (TimeOffRequestRow × Option HoldView)
fetch_request headers request_id = get_request request_id headers.employee_id

-- The caller's correlation id, or a new one.
unfoldable pub correlation_id_of : Option Text → M Text
unfolding generate_id
correlation_id_of header = elim (or_null header) [ none ↦ generate_id | some id ↦ pure id ]

pub record HealthReport : Type 0 where
  pub is_connected : Bool
  pub outbox_depth : ℕ
  pub last_batch_sync : Option Text
  pub uptime_seconds : ℕ

-- `connected` says if `SELECT 1` returns; the times are in milliseconds.
unfoldable pub check_health : Bool → ℕ → ℕ → Db → HealthReport
check_health connected start_time now db = record {
  is_connected = connected;
  outbox_depth = get_outbox_depth db;
  last_batch_sync = get_last_batch_time db;
  uptime_seconds = (now - start_time) / 1000;
}
