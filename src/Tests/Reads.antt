-- ===== src/Tests/Reads.antt =====
-- Examples of the reads, of a refund and of a reconciliation.
use readyon.Base.{
  ◌≡◌, refl, none, pos, ◌+ℤ◌, ◌-ℤ◌, find_first, sum_where, order_by, select_where, leb,
}
use readyon.Types.{hq}
use readyon.Store.{IsAtomic, Returns, run_in_transaction}
use readyon.Balance.Repository.{
  get_effective_available, get_active_holds_total, find_by_employee_and_type,
}
use readyon.Balance.Service.{
  BalanceView, get_balance_by_type, balance_view, get_balance_by_type-available,
}
use readyon.Request.Repository.{Filters, is_listed}
use readyon.Request.Reads.{IsPageOf, list_requests, list_requests-IsPageOf}
use readyon.Outbox.Processor.{settle_cancel}
use readyon.Outbox.Refund.{Refunded, settle_cancel-IsAtomic, settle_cancel-available}
use readyon.Hcm.Port.{HcmGetBalanceResponse, HcmCancelTimeOffResponse}
use readyon.Tests.Office.{office, tables, projection, synced, entry}

abbrev shown : BalanceView
shown = record {
  employee_id = 5;
  leave_type = 7;
  location = 1;
  total_balance = pos 40;
  used_balance = pos 8;
  held_balance = pos 12;
  effective_available = pos 20;
  hcm_version = 3;
  last_synced_at = 100;
}

get_balance_by_type-available_example :
    (pos 20 ≡ get_effective_available 5 7 1 none tables) × (shown.location ≡ hq)
unfolding get_balance_by_type balance_view find_by_employee_and_type find_first
    get_active_holds_total sum_where ◌+ℤ◌ ◌-ℤ◌
get_balance_by_type-available_example = get_balance_by_type-available 5 7 1 tables shown refl refl

abbrev all_filters : Filters
all_filters = record {
  status = none;
  leave_type = none;
  start_date_from = none;
  start_date_to = none;
}

list_requests-IsPageOf_example :
    IsPageOf
      (order_by
        (λ a b. leb b.created_at a.created_at)
        (select_where (is_listed 5 all_filters none) tables.requests))
      (list_requests 5 all_filters none (pos 2) tables)
list_requests-IsPageOf_example = list_requests-IsPageOf 5 all_filters none (pos 2) tables

abbrev taken_back : HcmCancelTimeOffResponse
taken_back = record { hcm_version = 5 }

settle_cancel-IsAtomic_example :
    IsAtomic tables
      (λ _. Refunded entry 5 7 none taken_back synced office)
      (run_in_transaction (settle_cancel entry 5 7 none taken_back synced) office)
settle_cancel-IsAtomic_example = settle_cancel-IsAtomic entry 5 7 none taken_back synced office

settle_cancel-available_example :
    Returns
      (λ _ w.
        get_effective_available 5 7 1 none w.db
        ≡ get_effective_available 5 7 1 none tables +ℤ pos 2)
      (run_in_transaction (settle_cancel entry 5 7 none taken_back synced) office)
unfolding find_by_employee_and_type find_first
settle_cancel-available_example =
    settle_cancel-available entry 5 7 none taken_back synced office projection refl

-- The HCM system counts 35 hours as used, which leaves 5 for the holds.
abbrev drifted : HcmGetBalanceResponse
drifted = record {
  employee_id = 5;
  leave_type = 7;
  total_balance = pos 40;
  used_balance = pos 35;
  hcm_version = 4;
}
