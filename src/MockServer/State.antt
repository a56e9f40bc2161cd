-- ===== src/MockServer/State.antt =====
-- The state, the requests and the responses of src/mock-hcm-server/server.ts.
use readyon.Base.{ℕ, ℤ, ◌+ℤ◌, ◌-ℤ◌, ltb_ℤ, Bool, false, ◌&&◌, ◌==◌, Option, none, some, List}
use readyon.Types.{Text}
use readyon.MockServer.Rules.{FailureRule, ErrorName}

-- A number of the program: whole, or NaN.
pub data Amount : Type 0 where
  whole : ℤ → Amount
  not_a_number : Amount

abbrev pub plus : Amount → Amount → Amount
plus (whole a) (whole b) = whole (a +ℤ b)
plus (whole _) not_a_number = not_a_number
plus not_a_number _ = not_a_number

abbrev pub minus : Amount → Amount → Amount
minus (whole a) (whole b) = whole (a -ℤ b)
minus (whole _) not_a_number = not_a_number
minus not_a_number _ = not_a_number

-- `<`, which is false of NaN.
abbrev pub less : Amount → Amount → Bool
less (whole a) (whole b) = ltb_ℤ a b
less (whole _) not_a_number = false
less not_a_number _ = false

-- `undefined` as a number.
abbrev pub number_of : Option ℤ → Amount
number_of none = not_a_number
number_of (some n) = whole n

-- An entry of the map of balances, with the two parts of its key.
pub record Balance : Type 0 where
  pub employee_id : Text
  pub leave_type : Text
  pub total_balance : Amount
  pub used_balance : Amount
  pub hcm_version : Text

pub record Deduction : Type 0 where
  pub reference_id : Text
  pub idempotency_key : Text
  pub employee_id : Option Text
  pub leave_type : Option Text
  pub hours : Option ℤ
  pub start_date : Option Text
  pub end_date : Option Text
  pub created_at : Text

pub data Reply : Type 0 where
  error_reply : ErrorName → Reply
  -- employee_id, leave_type, total, used, version
  balance_reply : Text → Text → Amount → Amount → Text → Reply
  -- reference_id, version
  accepted_reply : Text → Text → Reply
  -- version
  cancelled_reply : Text → Reply
  -- checkpoint, items
  batch_reply : Text → List Balance → Reply
  balances_reply : List Balance → Reply
  deductions_reply : List Deduction → Reply
  -- the methods, paths and statuses of the log
  log_reply : List (Text × Text × ℕ) → Reply
  -- balances, deductions, keys, rules, log size, delay
  stats_reply : ℕ → ℕ → ℕ → ℕ → ℕ → ℕ → Reply
  done_reply healthy_reply : Reply
  rules_reply delay_reply : ℕ → Reply

pub record Response : Type 0 where
  pub status : ℕ
  pub body : Reply

pub record StoredReply : Type 0 where
  pub key : Text
  pub response : Response

pub record LoggedRequest : Type 0 where
  pub method : Text
  pub path : Text
  pub timestamp : Text
  pub status : ℕ

pub record Server : Type 0 where
  pub balances : List Balance
  pub idempotency_store : List StoredReply
  pub deductions : List Deduction
  pub failure_rules : List FailureRule
  pub request_log : List LoggedRequest
  pub global_delay : ℕ

-- `body.hours` before `parseInt`: missing, no number, or a number.
pub data HoursField : Type 0 where
  missing_hours no_integer : HoursField
  integer : ℤ → HoursField

-- The fields of a JSON body that the two handlers read; the key is that of the header, or else that
-- of the body.
pub record Body : Type 0 where
  pub idempotency_key : Option Text
  pub employee_id : Option Text
  pub leave_type : Option Text
  pub hours : HoursField
  pub start_date : Option Text
  pub end_date : Option Text
  pub hcm_reference_id : Option Text

-- `toISOString` of the clock, once and once again, and `generateId()`.
pub record Moment : Type 0 where
  pub iso : Text
  pub later_iso : Text
  pub fresh_id : Text

abbrev pub is_key : Text → Text → Balance → Bool
is_key e t b = b.employee_id == e && b.leave_type == t

abbrev pub is_reply_to : Text → StoredReply → Bool
is_reply_to k r = r.key == k

abbrev pub respond : ℕ → Reply → Response
respond status body = record { status = status; body = body }
