-- ===== src/Hcm/MockAdapter/Faults.antt =====
-- The failure injection of src/integration/hcm/mock-hcm-adapter.ts.
use readyon.Base.{
  ℕ, ℤ, pos, ◌-ℤ◌, ◌-◌, ltb, ltb_ℤ, leb_ℤ, Bool, true, false, not, ◌&&◌, ◌||◌, ◌==◌, Option, none,
  some, List, [], ◌∷◌, if◌then◌else◌,
}
use readyon.Types.{Text, is_truthy}

pub data Operation : Type 0 where
  getting_balance posting canceling getting_batch : Operation

-- `===` on the names of operations.
abbrev pub same_operation : Operation → Operation → Bool
same_operation getting_balance getting_balance = true
same_operation posting posting = true
same_operation canceling canceling = true
same_operation getting_batch getting_batch = true
same_operation _ _ = false

pub data FailureMode : Type 0 where
  no_mode transient_mode transient_persistent permanent_mode timeout insufficient_mode : FailureMode
  invalid_leave_type not_found_mode rate_limited server_error : FailureMode

-- `countdown` is a number of calls, so not negative; `failure_count` may be -1.
pub record FailureConfig : Type 0 where
  pub mode : FailureMode
  pub countdown : ℕ
  pub failure_count : ℤ
  pub operation : Option Operation
  pub employee_id : Option Text

abbrev operation_fits : Option Operation → Operation → Bool
operation_fits none o = true
operation_fits (some p) o = same_operation p o

abbrev employee_fits : Option Text → Text → Bool
employee_fits none e = true
employee_fits (some t) e = not (is_truthy t) || t == e

-- Neither filter says `continue`.
abbrev pub targets : FailureConfig → Operation → Text → Bool
targets c o e = operation_fits c.operation o && employee_fits c.employee_id e

-- `failureCount--`, and the `splice` of what is used up.
unfoldable pub spend : FailureConfig → List FailureConfig → List FailureConfig
spend c cs =
    let n = c.failure_count -ℤ pos 1 in
    if leb_ℤ n (pos 0) then cs else record c { failure_count = n } ∷ cs

unfoldable pub manage_count : FailureMode → FailureConfig → List FailureConfig → List FailureConfig
unfolding spend
manage_count transient_persistent c cs =
    if ltb_ℤ (pos 0) c.failure_count then spend c cs else c ∷ cs
manage_count _ c cs = spend c cs

-- How the loop ends, with the rules that it leaves.
pub data Check : Type 0 where
  passes : List FailureConfig → Check
  fires : FailureMode → List FailureConfig → Check

unfoldable pub check_config : Operation → Text → FailureConfig → Check → Check
unfolding manage_count
check_config o e c (fires mode cs) = fires mode (c ∷ cs)
check_config o e c (passes cs) =
    if targets c o e
    then if ltb 0 c.countdown
      then passes (record c { countdown = c.countdown - 1 } ∷ cs)
      else fires c.mode (manage_count c.mode c cs)
    else passes (c ∷ cs)

-- The loop runs from the last rule to the first, and stops at one that throws.
unfoldable pub check_failure : Operation → Text → List FailureConfig → Check
unfolding check_config
check_failure o e [] = passes []
check_failure o e (c ∷ cs) = check_config o e c (check_failure o e cs)

pub data HcmErrorCode : Type 0 where
  hcm_timeout hcm_bad_request hcm_insufficient_balance hcm_invalid_leave_type : HcmErrorCode
  hcm_not_found hcm_rate_limited hcm_internal_error hcm_unknown : HcmErrorCode

pub data Message : Type 0 where
  simulated : FailureMode → Message
  -- employee_id, leave_type
  no_balance_record : Text → Text → Message
  -- available, requested, total, used
  insufficient : ℤ → ℤ → ℤ → ℤ → Message
  -- hcm_reference_id
  no_time_off_record : Option Text → Message

-- The errors of src/integration/hcm/hcm-errors.ts, with their correlation id.
pub data HcmError : Type 0 where
  transient_error permanent_error : HcmErrorCode → Message → Text → HcmError

unfoldable pub throw_failure : FailureMode → Text → HcmError
throw_failure transient_mode = transient_error hcm_timeout (simulated transient_mode)
throw_failure transient_persistent = transient_error hcm_timeout (simulated transient_persistent)
throw_failure timeout = transient_error hcm_timeout (simulated timeout)
throw_failure permanent_mode = permanent_error hcm_bad_request (simulated permanent_mode)
throw_failure insufficient_mode =
    permanent_error hcm_insufficient_balance (simulated insufficient_mode)
throw_failure invalid_leave_type =
    permanent_error hcm_invalid_leave_type (simulated invalid_leave_type)
throw_failure not_found_mode = permanent_error hcm_not_found (simulated not_found_mode)
throw_failure rate_limited = transient_error hcm_rate_limited (simulated rate_limited)
throw_failure server_error = transient_error hcm_internal_error (simulated server_error)
throw_failure no_mode = transient_error hcm_unknown (simulated no_mode)
