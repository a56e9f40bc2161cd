-- ===== src/Tests/Rounds.antt =====
-- Examples of a sweep and of a run of the reconciliation.
use readyon.Base.{pos}
use readyon.Store.{Ensures, ok}
use readyon.Hcm.Port.{HcmAdapterPort}
use readyon.Outbox.Rounds as Sweeps
use readyon.Reconciliation.{run_reconciliation}
use readyon.Reconciliation.Rounds.{page, before_page, run_reconciliation-Rounds}
use readyon.Reconciliation.Rounds as Runs
use readyon.Tests.Office.{office}
use readyon.Tests.System.{interrupted}

-- The HCM system has a drift of 2 hours in the total.
abbrev answering : HcmAdapterPort
answering = record interrupted {
  get_balance = λ e t _ w.
      ok
        (record {
          employee_id = e;
          leave_type = t;
          total_balance = pos 42;
          used_balance = pos 8;
          hcm_version = 6;
        })
        w;
}

run_reconciliation-Rounds_example :
    Ensures
      (Runs.Rounds answering (pos 8) (before_page 0 (page 10 0 office)) (page 10 0 office) office)
      (run_reconciliation answering (pos 8) 10 0 office)
run_reconciliation-Rounds_example = run_reconciliation-Rounds answering (pos 8) 10 0 office
