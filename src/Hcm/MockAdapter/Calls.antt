-- ===== src/Hcm/MockAdapter/Calls.antt =====
-- The calls of the port in src/integration/hcm/mock-hcm-adapter.ts. A call counts itself, awaits
-- its delay, and then runs to its end without another `await`.
pub mod Answers
pub mod Posting
pub mod Cancelling
unfoldable pub use Answers.*
unfoldable pub use Posting.*
unfoldable pub use Cancelling.*
use readyon.Base.{
  ℕ, ℤ, pos, ◌+ℤ◌, ◌-ℤ◌, ◌+◌, ltb, ltb_ℤ, Bool, holds_value, Option, none, some, [], ◌∷◌, ◌++◌, map,
  if◌then◌else◌, find_first, select_where, update_where, set_entry, remove_first,
}
use readyon.Types.{Text, or_default}
use readyon.Hcm.Port.{
  HcmPostTimeOffRequest, HcmCancelTimeOffRequest, HcmGetBalanceResponse, HcmBalanceItem,
  HcmBatchBalancesResponse,
}
use readyon.Hcm.MockAdapter.Faults.{
  Operation, getting_balance, posting, canceling, getting_batch, passes, fires, check_failure,
  HcmError, permanent_error, hcm_not_found, hcm_insufficient_balance, no_balance_record,
  insufficient, no_time_off_record, throw_failure,
}
use readyon.Hcm.MockAdapter.State.{
  MockBalance, MockDeduction, MockResponse, posted, canceled, MockHcm, is_balance_of,
  is_stored_under, count_call,
}

unfoldable pub read_balance : Text → Text → Text → MockHcm → Ended HcmGetBalanceResponse
read_balance e t correlation_id s = elim (find_first (is_balance_of e t) s.balances) [
  | none ↦ (throws (permanent_error hcm_not_found (no_balance_record e t) correlation_id), s)
  | some b ↦ (
    replies (record {
      employee_id = e;
      leave_type = t;
      total_balance = b.total_balance;
      used_balance = b.used_balance;
      hcm_version = b.hcm_version;
    }),
    s,
  )
]

unfoldable pub answer_get : Text → Text → Text → MockHcm → Ended HcmGetBalanceResponse
unfolding after_check read_balance
answer_get e t correlation_id =
    after_check getting_balance e correlation_id (read_balance e t correlation_id)

abbrev item_of : MockBalance → HcmBalanceItem
item_of b = record {
  employee_id = b.employee_id;
  leave_type = b.leave_type;
  total_balance = b.total_balance;
  used_balance = b.used_balance;
  hcm_version = b.hcm_version;
}

unfoldable pub read_batch : Text → Instant → MockHcm → Ended HcmBatchBalancesResponse
read_batch since now s = (
  replies (record {
    checkpoint = now.iso;
    items = map item_of (select_where (λ b. ltb since b.hcm_version) s.balances);
  }),
  s,
)

unfoldable pub answer_batch :
    Text → Text → Text → Instant → MockHcm → Ended HcmBatchBalancesResponse
unfolding after_check read_batch
answer_batch system since correlation_id now =
    after_check getting_batch system correlation_id (read_batch since now)

-- The whole calls; `apply_delay` is what else happens in the adapter during the delay, and `system`
-- the text 'system'.
module _ (apply_delay : ℕ → MockHcm → MockHcm) (system : Text) where
  awaited : MockHcm → MockHcm
  awaited s = apply_delay s.delay_ms s

  unfoldable pub get_balance : Text → Text → Text → MockHcm → Ended HcmGetBalanceResponse
  unfolding answer_get count_call awaited
  get_balance e t correlation_id s =
      answer_get e t correlation_id (awaited (count_call getting_balance e s))

  unfoldable pub post_time_off : HcmPostTimeOffRequest → Instant → MockHcm → Ended MockResponse
  unfolding answer_post count_call awaited
  post_time_off r now s = answer_post r now (awaited (count_call posting r.employee_id s))

  unfoldable pub cancel_time_off : HcmCancelTimeOffRequest → Instant → MockHcm → Ended MockResponse
  unfolding answer_cancel count_call awaited
  cancel_time_off r now s = answer_cancel r now (awaited (count_call canceling r.employee_id s))

  unfoldable pub get_batch_balances :
      Text → Text → Instant → MockHcm → Ended HcmBatchBalancesResponse
  unfolding answer_batch count_call awaited
  get_batch_balances since correlation_id now s =
      answer_batch system since correlation_id now (awaited (count_call getting_batch system s))
