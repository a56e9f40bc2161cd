-- ===== src/Request/Repository.antt =====
-- src/request/request.repository.ts
use readyon.Base.{
  ℕ, ◌+◌, Bool, true, false, not, ◌&&◌, ◌||◌, Option, none, some, List, [], ◌∷◌, ◌++◌, ℤ, pos,
  ltb_ℤ, ltb, leb, ◌==◌, if◌then◌else◌, take, find_first, count_where, any, update_where,
  select_where, sum_where, order_by, holds_value,
}
use readyon.Types.{
  Text, or_default, or_null, empty_text, is_truthy, TimeOffRequestRow, RequestStatus,
  pending_approval, approved_pending_hcm, approved, same_status, id_of,
}
use readyon.Errors.{sqlite_error, type_error, time_off_requests, version_conflict_exception}
use readyon.Store.{Db, M, gets, ask, or_raise, raise_if, modify, generate_id, ◌>>=◌, ◌>>◌, now_iso}

unfoldable pub find_by_id : Text → Db → Option TimeOffRequestRow
find_by_id id db = find_first (λ r. r.id == id) db.requests

-- The primary key and the CHECK constraints of time_off_requests.
unfoldable pub violates : TimeOffRequestRow → Db → Bool
violates r db =
    any (λ (q : TimeOffRequestRow). q.id == r.id) db.requests
    || (ltb r.end_date r.start_date || not (ltb_ℤ (pos 0) r.hours_requested))

pub record CreateParams : Type 0 where
  pub employee_id : Text
  pub manager_id : Option Text
  pub leave_type : Text
  pub location : Text
  pub start_date : Text
  pub end_date : Text
  pub hours_requested : ℤ
  pub reason : Option Text

-- The row that `create` inserts.
abbrev pub new_request : CreateParams → Text → Text → TimeOffRequestRow
new_request params id now = record {
  id = id;
  employee_id = params.employee_id;
  manager_id = or_null params.manager_id;
  leave_type = params.leave_type;
  location = some params.location;
  start_date = params.start_date;
  end_date = params.end_date;
  hours_requested = params.hours_requested;
  reason = or_default params.reason empty_text;
  status = pending_approval;
  rejection_reason = none;
  hcm_reference_id = none;
  version = 1;
  created_at = now;
  updated_at = now;
}

unfoldable pub create : CreateParams → M TimeOffRequestRow
unfolding generate_id
create params = do
  id ← generate_id
  now ← ask now_iso
  let r = new_request params id now
  raise_if (← gets (violates r)) (sqlite_error time_off_requests)
  modify (λ db. record db { requests = db.requests ++ r ∷ [] })
  or_raise (← gets (find_by_id id)) type_error

-- A condition that the query has only where its parameter is given.
abbrev pub optional_filter : Option Text → (Text → Bool) → Bool
optional_filter none test = true
optional_filter (some t) test = if is_truthy t then test t else true

pub record Filters : Type 0 where
  pub status : Option RequestStatus
  pub leave_type : Option Text
  pub start_date_from : Option Text
  pub start_date_to : Option Text

abbrev pub status_filter : Option RequestStatus → RequestStatus → Bool
status_filter none s = true
status_filter (some t) s = same_status s t

abbrev pub is_listed : Text → Filters → Option Text → TimeOffRequestRow → Bool
is_listed employee_id filters cursor r =
    r.employee_id == employee_id
    && (status_filter filters.status r.status
        && (optional_filter filters.leave_type (λ t. r.leave_type == t)
            && (optional_filter filters.start_date_from (λ t. leb t r.start_date)
                && (optional_filter filters.start_date_to (λ t. leb r.start_date t)
                    && optional_filter cursor (λ t. ltb t r.id)))))

-- One row more than `limit`, for `has_more`.
unfoldable pub find_by_employee_id : Text → Filters → Option Text → ℕ → Db → List TimeOffRequestRow
find_by_employee_id employee_id filters cursor limit db = take (limit + 1) (
    order_by (λ a b. leb b.created_at a.created_at)
      (select_where (is_listed employee_id filters cursor) db.requests))

abbrev pub awaits : Text → Option Text → TimeOffRequestRow → Bool
awaits manager_id cursor r =
    holds_value r.manager_id manager_id
    && (same_status r.status pending_approval && optional_filter cursor (λ t. ltb t r.id))

unfoldable pub find_pending_by_manager : Text → Option Text → ℕ → Db → List TimeOffRequestRow
find_pending_by_manager manager_id cursor limit db = take (limit + 1) (
    order_by (λ a b. leb a.created_at b.created_at)
      (select_where (awaits manager_id cursor) db.requests))

-- `status IN ('PENDING_APPROVAL', 'APPROVED_PENDING_HCM', 'APPROVED')`
abbrev pub is_blocking : RequestStatus → Bool
is_blocking pending_approval = true
is_blocking approved_pending_hcm = true
is_blocking approved = true
is_blocking _ = false

abbrev pub is_overlapping : Text → Text → Text → Text → TimeOffRequestRow → Bool
is_overlapping employee_id leave_type start_date end_date r =
    r.employee_id == employee_id
    && (r.leave_type == leave_type
        && (is_blocking r.status && (leb r.start_date end_date && leb start_date r.end_date)))

unfoldable pub has_overlap : Text → Text → Text → Text → Db → Bool
has_overlap employee_id leave_type start_date end_date db =
    ltb 0 (count_where (is_overlapping employee_id leave_type start_date end_date) db.requests)

-- The `extra` columns that `updateStatus` sets where they are not undefined.
pub record Extra : Type 0 where
  pub rejection_reason : Option Text
  pub hcm_reference_id : Option Text

abbrev pub no_extra : Extra
no_extra = record { rejection_reason = none; hcm_reference_id = none }

abbrev pub or_old : Option Text → Option Text → Option Text
or_old none old = old
or_old (some t) old = some t

abbrev pub set_status : RequestStatus → Extra → Text → TimeOffRequestRow → TimeOffRequestRow
set_status new_status extra now r = record r {
  status = new_status;
  rejection_reason = or_old extra.rejection_reason r.rejection_reason;
  hcm_reference_id = or_old extra.hcm_reference_id r.hcm_reference_id;
  version = r.version + 1;
  updated_at = now;
}

abbrev pub is_at_version : Text → ℕ → TimeOffRequestRow → Bool
is_at_version id expected_version r = r.id == id && r.version == expected_version

-- The UPDATE of `updateStatus`.
unfoldable pub set_statuses : Text → RequestStatus → ℕ → Extra → Text → Db → Db
set_statuses id new_status expected_version extra now db = record db {
  requests =
      update_where (is_at_version id expected_version) (set_status new_status extra now)
        db.requests;
}

unfoldable pub update_status : Text → RequestStatus → ℕ → Extra → M TimeOffRequestRow
update_status id new_status expected_version extra = do
  now ← ask now_iso
  changes ← gets (λ db. count_where (is_at_version id expected_version) db.requests)
  modify (set_statuses id new_status expected_version extra now)
  raise_if (changes == 0) (version_conflict_exception time_off_requests (id_of id))
  or_raise (← gets (find_by_id id)) type_error

unfoldable pub find_by_status : RequestStatus → Db → List TimeOffRequestRow
find_by_status status db = select_where (λ r. same_status r.status status) db.requests

unfoldable pub get_pending_deduction_hours : Text → Text → Db → ℤ
get_pending_deduction_hours employee_id leave_type db =
    sum_where
      (λ r.
        r.employee_id == employee_id
        && (r.leave_type == leave_type && same_status r.status approved_pending_hcm))
      (λ r. r.hours_requested) db.requests
