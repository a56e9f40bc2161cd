-- ===== src/Hcm/MockAdapter/Calls/Answers.antt =====
-- src/integration/hcm/mock-hcm-adapter.ts: what its calls read and how they end.
use readyon.Base.{ℕ, ◌+◌}
use readyon.Types.{Text}
use readyon.Hcm.MockAdapter.Faults.{
  Operation, passes, fires, check_failure, HcmError, throw_failure,
}
use readyon.Hcm.MockAdapter.State.{MockHcm}

-- What a call reads outside of the adapter: `toISOString` of the clock, once and once again,
-- `Date.now()`, and `hcm-ref-${generateId()}`.
pub record Instant : Type 0 where
  pub iso : Text
  pub later_iso : Text
  pub ms : ℕ
  pub reference_id : Text

pub data Answer (A : Type 0) : Type 0 where
  replies : A → Answer A
  throws : HcmError → Answer A

-- The end of a call, with the state that it leaves.
abbrev pub Ended : Type 0 → Type 0
Ended A = Answer A × MockHcm

unfoldable pub count_duplicate : MockHcm → MockHcm
count_duplicate s = record s {
  stats = record s.stats {
    idempotent_duplicates_detected = s.stats.idempotent_duplicates_detected + 1;
  };
}

-- `this.checkFailure(…)`, and what follows when it does not throw.
unfoldable pub after_check :
    {A : Type 0} → Operation → Text → Text → (MockHcm → Ended A) → MockHcm → Ended A
unfolding check_failure throw_failure
after_check o e correlation_id k s = elim (check_failure o e s.failure_configs) [
  | passes cs ↦ k (record s { failure_configs = cs })
  | fires mode cs ↦ (
    throws (throw_failure mode correlation_id),
    record s {
      failure_configs = cs;
      stats = record s.stats { failures_injected = s.stats.failures_injected + 1 };
    },
  )
]
