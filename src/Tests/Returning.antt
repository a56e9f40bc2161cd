-- ===== src/Tests/Returning.antt =====
-- Examples of operations on requests that return.
use readyon.Base.{refl, arith, none, some, pos, any, find_first, sum_where, ◌+ℤ◌, ◌-ℤ◌}
use readyon.StateMachine.{is_valid_transition}
use readyon.Store.{Succeeds}
use readyon.Hold.Repository.{end_holds}
use readyon.Request.Repository.{find_by_id, set_statuses}
use readyon.Request.Service.{cancel_request}
use readyon.Request.Returning.{cancel_request_returns}
use readyon.Outbox.Repository as Outbox
use readyon.Tests.Office.{office, synced}

cancel_request_returns_example : Succeeds (cancel_request 22 5 3 none none office)
unfolding find_by_id find_first is_valid_transition Outbox.violates any end_holds set_statuses
    readyon.Base.update_where
cancel_request_returns_example = cancel_request_returns 22 none office synced refl none refl refl
