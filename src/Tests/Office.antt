-- ===== src/Tests/Office.antt =====
-- An office with one employee (5), whose manager is 6, and three requests for leave of type 7.
use readyon.Base.{ℕ, ◌+◌, none, some, [], ◌∷◌, ℤ, pos}
use readyon.Types.{
  Text, hq, BalanceProjectionRow, TimeOffRequestRow, BalanceHoldRow, IntegrationOutboxRow,
  IdempotencyRow, RequestStatus, pending_approval, approved_pending_hcm, approved, HoldStatus,
  active, converted, pending, post_time_off, pto_key, post_payload,
}
use readyon.Store.{Db, World}
use readyon.Request.Service.{CreateTimeOffRequestDto}

abbrev pub projection : BalanceProjectionRow
projection = record {
  id = 10;
  employee_id = 5;
  leave_type = 7;
  location = some hq;
  total_balance = pos 40;
  used_balance = pos 8;
  projected_available = pos 32;
  hcm_version = 3;
  version = 1;
  created_at = 100;
  updated_at = 100;
}

abbrev row : Text → Text → Text → ℤ → RequestStatus → ℕ → TimeOffRequestRow
row id from until hours status version = record {
  id = id;
  employee_id = 5;
  manager_id = some 6;
  leave_type = 7;
  location = some hq;
  start_date = from;
  end_date = until;
  hours_requested = hours;
  reason = 0;
  status = status;
  rejection_reason = none;
  hcm_reference_id = none;
  version = version;
  created_at = 200;
  updated_at = 200;
}

abbrev pub waiting : TimeOffRequestRow
waiting = row 20 510 511 (pos 8) pending_approval 1

abbrev pub sent : TimeOffRequestRow
sent = row 21 520 521 (pos 4) approved_pending_hcm 2

abbrev pub synced : TimeOffRequestRow
synced = row 22 530 531 (pos 2) approved 3

abbrev hold_row : Text → Text → ℤ → HoldStatus → BalanceHoldRow
hold_row id request_id hours status = record {
  id = id;
  request_id = request_id;
  employee_id = 5;
  leave_type = 7;
  location = some hq;
  hold_amount = hours;
  status = status;
  released_at = none;
  version = 1;
  created_at = 200;
  updated_at = 200;
}

-- The entry of the request that was sent, on its last try.
abbrev pub entry : IntegrationOutboxRow
entry = record {
  id = 31;
  request_id = 21;
  action = post_time_off;
  idempotency_key = pto_key 21 90;
  payload = post_payload 5 7 520 521 (pos 4);
  status = pending;
  retry_count = 4;
  max_retries = 5;
  next_retry_at = none;
  last_error = none;
  error_category = none;
  completed_at = none;
  created_at = 300;
  updated_at = 300;
}

-- A key that expired at 900.
abbrev pub old_key : IdempotencyRow
old_key = record {
  key = 70;
  payload_hash = 71;
  response = 72;
  status_code = 201;
  created_at = 200;
  expires_at = 900;
}

-- A key that is valid until 5000.
abbrev pub valid_key : IdempotencyRow
valid_key = record {
  key = 80;
  payload_hash = 81;
  response = 82;
  status_code = 201;
  created_at = 400;
  expires_at = 5000;
}

abbrev pub tables : Db
tables = record {
  projections = projection ∷ [];
  requests = waiting ∷ sent ∷ synced ∷ [];
  holds =
      hold_row 40 20 (pos 8) active
      ∷ hold_row 41 21 (pos 4) active
      ∷ hold_row 42 22 (pos 2) converted
      ∷ [];
  entries = entry ∷ [];
  batches = [];
  audits = [];
  keys = old_key ∷ valid_key ∷ [];
  checkpoint = none;
}

-- It is 1000 on the day 505.
abbrev pub office : World
office = record {
  db = tables;
  uuid = λ n. 10000 + n;
  drawn = 0;
  clock_ms = 1000;
  iso = λ n. n;
  day = λ _. 505;
  jitter_ms = 17;
}

-- Twenty hours, which is just what is left beside the active holds.
abbrev pub dto : CreateTimeOffRequestDto
dto = record {
  leave_type = 7;
  start_date = 600;
  end_date = 601;
  hours_requested = pos 20;
  location = none;
  reason = none;
}
