-- ===== src/Hcm/MockAdapter/Calls/Cancelling.antt =====
-- src/integration/hcm/mock-hcm-adapter.ts: `cancelTimeOff` after its delay.
use readyon.Base.{
  Bool, holds_value, Option, none, some, find_first, update_where, set_entry, remove_first,
}
use readyon.Types.{Text, or_default}
use readyon.Hcm.Port.{HcmCancelTimeOffRequest}
use readyon.Hcm.MockAdapter.Faults.{canceling, permanent_error, hcm_not_found, no_time_off_record}
use readyon.Hcm.MockAdapter.State.{
  MockBalance, MockDeduction, MockResponse, canceled, MockHcm, is_balance_of, is_stored_under,
}
use readyon.Hcm.MockAdapter.Calls.Answers.{
  Instant, replies, throws, Ended, count_duplicate, after_check,
}
use readyon.Hcm.MockAdapter.Calls.Posting.{give_back}

abbrev pub has_reference : Option Text → MockDeduction → Bool
has_reference reference d = holds_value reference d.hcm_reference_id

-- `balance?.hcm_version || new Date().toISOString()`, where a balance has just got its version.
abbrev pub version_after : Option MockBalance → Instant → Text
version_after none now = now.later_iso
version_after (some b) now = or_default (some now.iso) now.later_iso

-- The rest of a cancellation, of a deduction that is there.
unfoldable pub reverse :
    HcmCancelTimeOffRequest → Instant → MockDeduction → MockHcm → Ended MockResponse
reverse r now d s =
    let response = canceled (record {
      hcm_version =
          version_after (find_first (is_balance_of d.employee_id d.leave_type) s.balances) now;
    }) in
    (
      replies response,
      record s {
        balances =
            update_where (is_balance_of d.employee_id d.leave_type) (give_back d.hours now.iso)
              s.balances;
        idempotency_store =
            set_entry (is_stored_under r.idempotency_key)
              (record { key = r.idempotency_key; response = response; timestamp = now.ms })
              s.idempotency_store;
        deductions = remove_first (has_reference r.hcm_reference_id) s.deductions;
      },
    )

unfoldable pub apply_cancel : HcmCancelTimeOffRequest → Instant → MockHcm → Ended MockResponse
unfolding reverse
apply_cancel r now s = elim (find_first (has_reference r.hcm_reference_id) s.deductions) [
  | none ↦ (
    throws (permanent_error hcm_not_found (no_time_off_record r.hcm_reference_id) r.correlation_id),
    s,
  )
  | some d ↦ reverse r now d s
]

unfoldable pub answer_cancel : HcmCancelTimeOffRequest → Instant → MockHcm → Ended MockResponse
unfolding apply_cancel after_check count_duplicate
answer_cancel r now s = elim (find_first (is_stored_under r.idempotency_key) s.idempotency_store) [
  | none ↦ after_check canceling r.employee_id r.correlation_id (apply_cancel r now) s
  | some stored ↦ (replies stored.response, count_duplicate s)
]
