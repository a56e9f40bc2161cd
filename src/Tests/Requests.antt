-- ===== src/Tests/Requests.antt =====
-- Examples of the operations on requests.
use readyon.Base.{
  ◌≡◌, refl, arith, none, some, pos, ◌-ℤ◌, ◌+ℤ◌, count_where, find_first, any, sum_where,
}
use readyon.Store.{IsAtomic, Returns, Succeeds}
use readyon.Balance.Repository.{
  get_effective_available, get_active_holds_total, find_by_employee_and_type,
}
use readyon.Request.Repository.{find_by_id, has_overlap}
use readyon.Request.Service.{create_request, cancel_request, approve_request, reject_request}
use readyon.Request.Creation.{Granted, create_request-IsAtomic, create_request_returns}
use readyon.Request.Cancellation.{
  Revoked, cancel_request-IsAtomic, cancel_request-available, cancel_request-no_open_entry,
}
use readyon.Request.Approval.{Approved, approve_request-IsAtomic}
use readyon.Request.Rejection.{Rejected, reject_request-IsAtomic}
use readyon.Outbox.Repository.{is_open_of}
use readyon.Tests.Office.{office, tables, dto, sent}

-- Of 32 hours, the active holds take 12.
available_now : get_effective_available 5 7 1 none tables ≡ pos 20
unfolding get_effective_available get_active_holds_total find_by_employee_and_type find_first
    sum_where ◌+ℤ◌ ◌-ℤ◌
available_now = refl

create_request_returns_example : Succeeds (create_request 5 dto none office)
unfolding get_effective_available get_active_holds_total find_by_employee_and_type find_first
    sum_where ◌+ℤ◌ ◌-ℤ◌ has_overlap count_where any
create_request_returns_example =
    create_request_returns 5 dto none office (omega arith) (omega arith) (λ missing. ground arith)
      refl (omega arith) (omega arith) (refl, refl)

create_request-IsAtomic_example :
    IsAtomic tables (Granted 5 dto none office) (create_request 5 dto none office)
create_request-IsAtomic_example = create_request-IsAtomic 5 dto none office

cancel_request-IsAtomic_example :
    IsAtomic tables (Revoked 22 5 3 none none office) (cancel_request 22 5 3 none none office)
cancel_request-IsAtomic_example = cancel_request-IsAtomic 22 5 3 none none office

cancel_request-available_example :
    Returns
      (λ _ w.
        get_effective_available 5 7 1 none w.db ≡ get_effective_available 5 7 1 (some 20) tables)
      (cancel_request 20 5 1 none none office)
cancel_request-available_example = cancel_request-available 20 5 1 none none office 5 7 1 refl

cancel_request-no_open_entry_example :
    Returns
      (λ _ w. count_where (is_open_of 21) w.db.entries ≡ 0)
      (cancel_request 21 5 2 none none office)
unfolding find_by_id find_first
cancel_request-no_open_entry_example =
    cancel_request-no_open_entry 21 5 2 none none office sent refl refl

approve_request-IsAtomic_example :
    IsAtomic tables (Approved 20 6 1 none office) (approve_request 20 6 1 none office)
approve_request-IsAtomic_example = approve_request-IsAtomic 20 6 1 none office

reject_request-IsAtomic_example :
    IsAtomic tables
      (Rejected (λ t. t) 20 6 1 99 none office)
      (reject_request (λ t. t) 20 6 1 99 none office)
reject_request-IsAtomic_example = reject_request-IsAtomic (λ t. t) 20 6 1 99 none office
