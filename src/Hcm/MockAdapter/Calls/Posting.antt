-- ===== src/Hcm/MockAdapter/Calls/Posting.antt =====
-- src/integration/hcm/mock-hcm-adapter.ts: `postTimeOff` after its delay.
use readyon.Base.{
  ℤ, pos, ◌+ℤ◌, ◌-ℤ◌, ltb_ℤ, none, some, [], ◌∷◌, ◌++◌, if◌then◌else◌, find_first, update_where,
  set_entry,
}
use readyon.Types.{Text}
use readyon.Hcm.Port.{HcmPostTimeOffRequest}
use readyon.Hcm.MockAdapter.Faults.{
  posting, permanent_error, hcm_insufficient_balance, insufficient,
}
use readyon.Hcm.MockAdapter.State.{
  MockBalance, MockDeduction, MockResponse, posted, MockHcm, is_balance_of, is_stored_under,
}
use readyon.Hcm.MockAdapter.Calls.Answers.{
  Instant, replies, throws, Ended, count_duplicate, after_check,
}

abbrev pub provisioned : Text → Text → Instant → MockBalance
provisioned e t now = record {
  employee_id = e;
  leave_type = t;
  total_balance = pos 1000;
  used_balance = pos 0;
  hcm_version = now.iso;
}

-- `balance.used_balance += hours`, with a new version.
abbrev pub add_used : ℤ → Text → MockBalance → MockBalance
add_used hours version b = record b {
  used_balance = b.used_balance +ℤ hours;
  hcm_version = version;
}

-- `balance.used_balance -= deduction.hours`, with a new version.
abbrev pub give_back : ℤ → Text → MockBalance → MockBalance
give_back hours version b = record b {
  used_balance = b.used_balance -ℤ hours;
  hcm_version = version;
}

abbrev pub deduction_of : HcmPostTimeOffRequest → Instant → MockDeduction
deduction_of r now = record {
  idempotency_key = r.idempotency_key;
  hcm_reference_id = now.reference_id;
  employee_id = r.employee_id;
  leave_type = r.leave_type;
  hours = r.hours;
  start_date = r.start_date;
  end_date = r.end_date;
  timestamp = now.later_iso;
}

abbrev pub accepted : Instant → MockResponse
accepted now = posted (record { hcm_reference_id = some now.reference_id; hcm_version = now.iso })

-- The rest of a post, on a balance that is in the map.
unfoldable pub deduct_hours :
    HcmPostTimeOffRequest → Instant → MockBalance → MockHcm → Ended MockResponse
deduct_hours r now b s =
    let available = b.total_balance -ℤ b.used_balance in
    if ltb_ℤ available r.hours
    then (
      throws (
          permanent_error hcm_insufficient_balance
            (insufficient available r.hours b.total_balance b.used_balance) r.correlation_id),
      s,
    )
    else (
      replies (accepted now),
      record s {
        balances =
            update_where (is_balance_of r.employee_id r.leave_type) (add_used r.hours now.iso)
              s.balances;
        idempotency_store =
            set_entry (is_stored_under r.idempotency_key)
              (record { key = r.idempotency_key; response = accepted now; timestamp = now.ms })
              s.idempotency_store;
        deductions = s.deductions ++ deduction_of r now ∷ [];
      },
    )

-- A balance that is missing is provided for.
unfoldable pub apply_post : HcmPostTimeOffRequest → Instant → MockHcm → Ended MockResponse
unfolding deduct_hours
apply_post r now s = elim (find_first (is_balance_of r.employee_id r.leave_type) s.balances) [
  | none ↦ deduct_hours r now (provisioned r.employee_id r.leave_type now) (record s {
    balances =
        set_entry (is_balance_of r.employee_id r.leave_type)
          (provisioned r.employee_id r.leave_type now) s.balances;
  })
  | some b ↦ deduct_hours r now b s
]

unfoldable pub answer_post : HcmPostTimeOffRequest → Instant → MockHcm → Ended MockResponse
unfolding apply_post after_check count_duplicate
answer_post r now s = elim (find_first (is_stored_under r.idempotency_key) s.idempotency_store) [
  | none ↦ after_check posting r.employee_id r.correlation_id (apply_post r now) s
  | some stored ↦ (replies stored.response, count_duplicate s)
]
