-- ===== src/Reconciliation.antt =====
-- src/integration/reconciliation/reconciliation.service.ts
pub mod Marks
pub mod Results
pub mod Rounds
use Prim.Native.Nat.{max}
use readyon.Base.{
  ℕ, Bool, Option, none, some, List, [], ◌∷◌, ℤ, pos, ◌+ℤ◌, ◌-ℤ◌, ltb_ℤ, leb_ℤ, ltb, ◌==◌, abs, ⊤,
  if◌then◌else◌,
}
use readyon.Types.{
  Text, or_default, hq, empty_text, TimeOffRequestRow, BalanceProjectionRow, BalanceHoldRow,
  same_status, reconciliation_required, balance, system, pair_of, reconciliation, balance_row,
  reconciliation_auto_repair, reconciliation_flagged, hcm_balance, drift_meta, drift_values_meta,
  Snapshot,
}
use readyon.Store.{M, pure, gets, generate_id, run_in_transaction, catch, ◌>>=◌, ◌>>◌}
use readyon.Balance.Repository.{
  find_by_employee_and_type, find_all_projections, update_from_hcm, get_active_holds_total,
}
use readyon.Hold.Repository.{find_active_by_employee_and_type}
use readyon.Request.Repository.{find_by_id, update_status, no_extra, get_pending_deduction_hours}
use readyon.Hcm.Port.{HcmAdapterPort, HcmGetBalanceResponse}
use readyon.Audit

-- 'OK', 'REPAIRED' and 'FLAGGED'.
pub data ReconcileResult : Type 0 where
  in_step repaired flagged : ReconcileResult

-- One round of `flagActiveHoldsForReconciliation`, for the request of the hold.
unfoldable pub mark_request : Text → Option TimeOffRequestRow → M ⊤
mark_request request_id none = pure tt
mark_request request_id (some r) =
    if same_status r.status reconciliation_required
    then pure tt
    else catch (do update_status request_id reconciliation_required r.version no_extra; pure tt)
        (λ _. pure tt)

unfoldable pub mark_requests : List BalanceHoldRow → M ⊤
mark_requests [] = pure tt
mark_requests (h ∷ holds) = do
  found ← gets (find_by_id h.request_id)
  mark_request h.request_id found
  mark_requests holds

unfoldable pub flag_active_holds : Text → Text → Text → M ⊤
flag_active_holds employee_id leave_type location = do
  active_holds ← gets (find_active_by_employee_and_type employee_id leave_type location)
  mark_requests active_holds

abbrev pub hcm_snapshot : HcmGetBalanceResponse → Snapshot
hcm_snapshot b =
    hcm_balance b.employee_id b.leave_type none b.total_balance b.used_balance b.hcm_version

-- The larger of the drifts of the total and of the used balance, where deductions that the HCM
-- system has still to hear of count as used.
unfoldable pub effective_drift : HcmGetBalanceResponse → BalanceProjectionRow → ℤ → ℕ
effective_drift b local pending_hours =
    max (abs (b.total_balance -ℤ local.total_balance))
      (abs (b.used_balance -ℤ (local.used_balance +ℤ pending_hours)))

module _ (employee_id leave_type location : Text) (b : HcmGetBalanceResponse) where
  -- The transaction of a repair, for the projection that it reads again.
  unfoldable pub repair_row : ℕ → ℤ → BalanceProjectionRow → M ⊤
  repair_row drift pending_hours current = do
    update_from_hcm employee_id leave_type location b.total_balance b.used_balance b.hcm_version
        current.version
    total_held ← gets (get_active_holds_total employee_id leave_type location none)
    if ltb_ℤ (b.total_balance -ℤ b.used_balance -ℤ total_held) (pos 0)
        then flag_active_holds employee_id leave_type location
        else pure tt
    Audit.log (record {
      entity_type = balance;
      entity_id = pair_of employee_id leave_type;
      action = reconciliation_auto_repair;
      actor_type = system;
      actor_id = reconciliation;
      before_state = some (balance_row current);
      after_state = some (hcm_snapshot b);
      metadata = some (drift_meta (pos drift) pending_hours);
      correlation_id = none;
    })

  unfoldable pub repair : ℕ → ℤ → M ⊤
  repair drift pending_hours = do
    current ← gets (find_by_employee_and_type employee_id leave_type location)
    elim current [ none ↦ pure tt | some p ↦ repair_row drift pending_hours p ]

  -- The transaction that leaves a drift to a person.
  unfoldable pub flag_drift : ℕ → ℤ → BalanceProjectionRow → ℤ → M ⊤
  flag_drift drift threshold local pending_hours = do
    flag_active_holds employee_id leave_type location
    Audit.log (record {
      entity_type = balance;
      entity_id = pair_of employee_id leave_type;
      action = reconciliation_flagged;
      actor_type = system;
      actor_id = reconciliation;
      before_state = none;
      after_state = none;
      metadata = some (
          drift_values_meta (pos drift) threshold (hcm_snapshot b) local.total_balance
            local.used_balance pending_hours);
      correlation_id = none;
    })

  -- The transaction without a drift, for a newer version.
  unfoldable pub renew : BalanceProjectionRow → M ⊤
  renew local = do
    update_from_hcm employee_id leave_type location b.total_balance b.used_balance b.hcm_version
        local.version
    pure tt

  -- `reconcileOne` once both balances are there; `threshold` is `autoRepairThreshold`.
  unfoldable pub reconcile_local : ℤ → BalanceProjectionRow → M ReconcileResult
  reconcile_local threshold local = do
    pending_hours ← gets (get_pending_deduction_hours employee_id leave_type)
    let drift = effective_drift b local pending_hours
    if drift == 0
        then (do
          if ltb local.hcm_version b.hcm_version then run_in_transaction (renew local) else pure tt
          pure in_step)
        else if leb_ℤ (pos drift) threshold
        then (do run_in_transaction (repair drift pending_hours); pure repaired)
        else (do run_in_transaction (flag_drift drift threshold local pending_hours); pure flagged)

module _ (port : HcmAdapterPort) (threshold : ℤ) where
  unfoldable pub reconcile_one : Text → Text → Text → M ReconcileResult
  unfolding generate_id
  reconcile_one employee_id leave_type location = do
    correlation_id ← generate_id
    b ← port.get_balance employee_id leave_type correlation_id
    found ← gets (find_by_employee_and_type employee_id leave_type location)
    elim found [
      | none ↦ pure in_step
      | some local ↦ reconcile_local employee_id leave_type location b threshold local
    ]

  -- The loop of `runReconciliation`, which returns the last employee.
  unfoldable pub reconcile_all : Text → List BalanceProjectionRow → M Text
  reconcile_all last [] = pure last
  reconcile_all last (p ∷ projections) = do
    catch (do reconcile_one p.employee_id p.leave_type (or_default p.location hq); pure tt)
        (λ _. pure tt)
    reconcile_all p.employee_id projections

  -- `last` is `lastReconciledEmployeeId` before the run, and the result is its value after.
  unfoldable pub run_reconciliation : ℕ → Text → M Text
  run_reconciliation batch_size last = do
    projections ← gets (find_all_projections (some last) batch_size)
    elim projections [ [] ↦ pure empty_text | p ∷ ps ↦ reconcile_all last (p ∷ ps) ]
