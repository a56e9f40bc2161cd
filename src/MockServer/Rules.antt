-- ===== src/MockServer/Rules.antt =====
-- `checkFailure` and `getFailureResponse` of src/mock-hcm-server/server.ts.
use readyon.Base.{
  ℕ, ◌-◌, ltb, ℤ, pos, ◌-ℤ◌, leb_ℤ, Bool, true, false, not, ◌&&◌, ◌||◌, holds_value, Option, none,
  some, List, [], ◌∷◌, if◌then◌else◌,
}
use readyon.Types.{Text, is_truthy}
use readyon.Hcm.MockAdapter.Faults.{Operation, same_operation}

-- The names that the code knows, and any other.
pub data RuleMode : Type 0 where
  transient_mode timeout server_error rate_limited insufficient_balance invalid_leave_type :
      RuleMode
  not_found permanent : RuleMode
  other_mode : Text → RuleMode

pub data OperationName : Type 0 where
  known_operation : Operation → OperationName
  other_operation : Text → OperationName

-- `countdown` is a number of calls, so not negative.
pub record FailureRule : Type 0 where
  pub mode : RuleMode
  pub countdown : ℕ
  pub failure_count : ℤ
  pub operation : Option OperationName
  pub employee_id : Option Text

abbrev operation_fits : Option OperationName → Operation → Bool
operation_fits none o = true
operation_fits (some (known_operation p)) o = same_operation p o
operation_fits (some (other_operation _)) o = false

-- `rule.employeeId && rule.employeeId !== employeeId`, negated.
abbrev employee_fits : Option Text → Option Text → Bool
employee_fits none e = true
employee_fits (some t) e = not (is_truthy t) || holds_value e t

abbrev pub fits_rule : FailureRule → Operation → Option Text → Bool
fits_rule r o e = operation_fits r.operation o && employee_fits r.employee_id e

-- `rule.failureCount--`, and the `splice` of what is used up.
unfoldable pub spend_rule : FailureRule → List FailureRule → List FailureRule
spend_rule r rs =
    let n = r.failure_count -ℤ pos 1 in
    if leb_ℤ n (pos 0) then rs else record r { failure_count = n } ∷ rs

-- `shouldFail` with its mode, and the rules that are left.
pub data RuleCheck : Type 0 where
  goes_on : List FailureRule → RuleCheck
  should_fail : RuleMode → List FailureRule → RuleCheck

unfoldable pub check_rule : Operation → Option Text → FailureRule → RuleCheck → RuleCheck
unfolding spend_rule
check_rule o e r (should_fail mode rs) = should_fail mode (r ∷ rs)
check_rule o e r (goes_on rs) =
    if fits_rule r o e
    then if ltb 0 r.countdown
      then goes_on (record r { countdown = r.countdown - 1 } ∷ rs)
      else should_fail r.mode (spend_rule r rs)
    else goes_on (r ∷ rs)

-- From the last rule to the first.
unfoldable pub check_rules : Operation → Option Text → List FailureRule → RuleCheck
unfolding check_rule
check_rules o e [] = goes_on []
check_rules o e (r ∷ rs) = check_rule o e r (check_rules o e rs)

pub data ErrorName : Type 0 where
  internal_error rate_limited_error insufficient_balance_error invalid_leave_type_error : ErrorName
  not_found_error bad_request unknown_error missing_parameter unknown_endpoint : ErrorName

unfoldable pub get_failure_response : RuleMode → ℕ × ErrorName
get_failure_response transient_mode = (500, internal_error)
get_failure_response timeout = (500, internal_error)
get_failure_response server_error = (500, internal_error)
get_failure_response rate_limited = (429, rate_limited_error)
get_failure_response insufficient_balance = (422, insufficient_balance_error)
get_failure_response invalid_leave_type = (422, invalid_leave_type_error)
get_failure_response not_found = (404, not_found_error)
get_failure_response permanent = (400, bad_request)
get_failure_response (other_mode _) = (500, unknown_error)
