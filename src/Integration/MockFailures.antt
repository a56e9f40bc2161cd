-- ===== src/Integration/MockFailures.antt =====
-- `IntegrationController.mockFailures` in src/integration/integration.controller.ts.
use readyon.Base.{ℕ, ℤ, pos, negsuc, Bool, ◌==◌, Option, none, some, if◌then◌else◌}
use readyon.Types.{Text, or_null}
use readyon.Store.{Db}
use readyon.Database.{Tracked, reset_database}
use readyon.Hcm.MockAdapter.Faults.{Operation, FailureMode, FailureConfig}
use readyon.Hcm.MockAdapter.State.{MockHcm, reset, add_failure}

-- The fields that the handler reads of its body.
pub record MockFailuresDto : Type 0 where
  pub reset_all : Bool
  pub mode : Option FailureMode
  pub countdown : Option ℕ
  pub failure_count : Option ℤ
  pub operation : Option Operation
  pub employee_id : Option Text

pub data MockFailuresReply : Type 0 where
  ignored was_reset failure_added no_action : MockFailuresReply

-- What the handler may change: the adapter, if it is the mock, the tables and the schema's record.
pub record Installation (S : Type 0) : Type 0 where
  pub mock : Option MockHcm
  pub db : Db
  pub tracked : Tracked S

abbrev or_none : Option ℕ → ℕ
or_none none = 0
or_none (some n) = n

-- `dto.failureCount || 1`
abbrev or_one : Option ℤ → ℤ
or_one none = pos 1
or_one (some (pos n)) = if n == 0 then pos 1 else pos n
or_one (some (negsuc n)) = negsuc n

abbrev config_of : FailureMode → MockFailuresDto → FailureConfig
config_of m dto = record {
  mode = m;
  countdown = or_none dto.countdown;
  failure_count = or_one dto.failure_count;
  operation = dto.operation;
  employee_id = or_null dto.employee_id;
}

unfoldable pub mock_failures :
    {S : Type 0} → MockFailuresDto → Installation S → MockFailuresReply × Installation S
unfolding reset add_failure reset_database
mock_failures dto i = elim i.mock [
  | none ↦ (ignored, i)
  | some m ↦
      if dto.reset_all
      then (
        was_reset,
        record {
          mock = some (reset m);
          db = (reset_database i.db i.tracked).0;
          tracked = (reset_database i.db i.tracked).1;
        },
      )
      else elim dto.mode [
        | none ↦ (no_action, i)
        | some mode ↦ (failure_added, record i { mock = some (add_failure (config_of mode dto) m) })
      ]
]
