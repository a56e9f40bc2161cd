-- ===== src/Hcm/MockAdapter/State.antt =====
-- The state of src/integration/hcm/mock-hcm-adapter.ts, and the methods that set it up.
use readyon.Base.{
  ℕ, ℤ, pos, ◌+◌, Bool, ◌&&◌, ◌==◌, Option, none, some, List, [], ◌∷◌, ◌++◌, if◌then◌else◌,
  find_first, select_where, set_entry,
}
use readyon.Types.{Text, is_given, IdempotencyKey, same_key}
use readyon.Hcm.Port.{HcmPostTimeOffResponse, HcmCancelTimeOffResponse}
use readyon.Hcm.MockAdapter.Faults.{
  Operation, getting_balance, posting, canceling, getting_batch, same_operation, FailureMode,
  FailureConfig,
}

-- An entry of the map of balances, with the two parts of its key `${employeeId}:${leaveType}`.
pub record MockBalance : Type 0 where
  pub employee_id : Text
  pub leave_type : Text
  pub total_balance : ℤ
  pub used_balance : ℤ
  pub hcm_version : Text

pub record MockDeduction : Type 0 where
  pub idempotency_key : IdempotencyKey
  pub hcm_reference_id : Text
  pub employee_id : Text
  pub leave_type : Text
  pub hours : ℤ
  pub start_date : Text
  pub end_date : Text
  pub timestamp : Text

-- Both kinds of calls keep their responses in one map.
pub data MockResponse : Type 0 where
  posted : HcmPostTimeOffResponse → MockResponse
  canceled : HcmCancelTimeOffResponse → MockResponse

pub record StoredResponse : Type 0 where
  pub key : IdempotencyKey
  pub response : MockResponse
  pub timestamp : ℕ

pub record CallCount : Type 0 where
  pub operation : Operation
  pub employee_id : Text
  pub calls : ℕ

pub record MockHcmStats : Type 0 where
  pub total_calls : ℕ
  pub get_balance_calls : ℕ
  pub post_time_off_calls : ℕ
  pub cancel_time_off_calls : ℕ
  pub get_batch_balances_calls : ℕ
  pub failures_injected : ℕ
  pub idempotent_duplicates_detected : ℕ

pub record MockHcm : Type 0 where
  pub balances : List MockBalance
  pub idempotency_store : List StoredResponse
  pub deductions : List MockDeduction
  pub delay_ms : ℕ
  pub failure_configs : List FailureConfig
  pub call_counts : List CallCount
  pub stats : MockHcmStats

abbrev pub is_balance_of : Text → Text → MockBalance → Bool
is_balance_of e t b = b.employee_id == e && b.leave_type == t

abbrev pub is_stored_under : IdempotencyKey → StoredResponse → Bool
is_stored_under k r = same_key r.key k

abbrev counts_for : Operation → Text → CallCount → Bool
counts_for o e c = same_operation c.operation o && c.employee_id == e

unfoldable pub create_empty_stats : MockHcmStats
create_empty_stats = record {
  total_calls = 0;
  get_balance_calls = 0;
  post_time_off_calls = 0;
  cancel_time_off_calls = 0;
  get_batch_balances_calls = 0;
  failures_injected = 0;
  idempotent_duplicates_detected = 0;
}

-- `parseInt` of a whole number is that number.
unfoldable pub set_balance : MockBalance → MockHcm → MockHcm
set_balance b s = record s {
  balances = set_entry (is_balance_of b.employee_id b.leave_type) b s.balances;
}

unfoldable pub set_balances : List MockBalance → MockHcm → MockHcm
unfolding set_balance
set_balances [] s = s
set_balances (b ∷ bs) s = set_balances bs (set_balance b s)

unfoldable pub get_balance_state : Text → Text → MockHcm → Option MockBalance
get_balance_state e t s = find_first (is_balance_of e t) s.balances

unfoldable pub set_delay : ℕ → MockHcm → MockHcm
set_delay ms s = record s { delay_ms = ms }

unfoldable pub add_failure : FailureConfig → MockHcm → MockHcm
add_failure c s = record s { failure_configs = s.failure_configs ++ c ∷ [] }

unfoldable pub set_failure_mode : FailureMode → ℕ → MockHcm → MockHcm
set_failure_mode m n s = record s {
  failure_configs =
      record {
        mode = m;
        countdown = n;
        failure_count = pos 1;
        operation = none;
        employee_id = none;
      }
      ∷ [];
}

unfoldable pub get_deductions : MockHcm → List MockDeduction
get_deductions s = s.deductions

unfoldable pub get_stats : MockHcm → MockHcmStats
get_stats s = s.stats

-- The fields of a new adapter.
unfoldable pub new_mock : MockHcm
unfolding create_empty_stats
new_mock = record {
  balances = [];
  idempotency_store = [];
  deductions = [];
  delay_ms = 0;
  failure_configs = [];
  call_counts = [];
  stats = create_empty_stats;
}

-- Every field is set anew.
unfoldable pub reset : MockHcm → MockHcm
unfolding new_mock
reset s = new_mock

unfoldable pub clear_failures : MockHcm → MockHcm
clear_failures s = record s { failure_configs = [] }

-- `incrementCallCount`
unfoldable pub increment_call_count : Operation → Text → List CallCount → List CallCount
increment_call_count o e cs =
    set_entry (counts_for o e)
      (record {
        operation = o;
        employee_id = e;
        calls = elim (find_first (counts_for o e) cs) [ none ↦ 0 | some c ↦ c.calls ] + 1;
      })
      cs

sum_calls : List CallCount → ℕ
sum_calls [] = 0
sum_calls (c ∷ cs) = c.calls + sum_calls cs

unfoldable pub get_call_count : Operation → Option Text → MockHcm → ℕ
unfolding sum_calls
get_call_count o none s = sum_calls (select_where (λ c. same_operation c.operation o) s.call_counts)
get_call_count o (some e) s =
    if is_given (some e)
    then elim (find_first (counts_for o e) s.call_counts) [ none ↦ 0 | some c ↦ c.calls ]
    else sum_calls (select_where (λ c. same_operation c.operation o) s.call_counts)

unfoldable pub count_stat : Operation → MockHcmStats → MockHcmStats
count_stat getting_balance s = record s {
  total_calls = s.total_calls + 1;
  get_balance_calls = s.get_balance_calls + 1;
}
count_stat posting s = record s {
  total_calls = s.total_calls + 1;
  post_time_off_calls = s.post_time_off_calls + 1;
}
count_stat canceling s = record s {
  total_calls = s.total_calls + 1;
  cancel_time_off_calls = s.cancel_time_off_calls + 1;
}
count_stat getting_batch s = record s {
  total_calls = s.total_calls + 1;
  get_batch_balances_calls = s.get_batch_balances_calls + 1;
}

-- What each call does before its delay.
unfoldable pub count_call : Operation → Text → MockHcm → MockHcm
unfolding increment_call_count count_stat
count_call o e s = record s {
  stats = count_stat o s.stats;
  call_counts = increment_call_count o e s.call_counts;
}
