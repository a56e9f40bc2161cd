-- ===== src/Request/Returning.antt =====
-- When `approveRequest`, `rejectRequest` and `cancelRequest` return.
use readyon.Base.{
  ◌≡◌, refl, true, false, none, some, arith, Option, ◌≤ℤ◌, ltb_ℤ, ==_self, Bool-cases, inl, inr,
}
use readyon.Types.{
  Text, TimeOffRequestRow, approved, approved_pending_hcm, rejected, cancelled, same_status,
  is_truthy, or_default, hq, post_time_off, cancel_time_off, pto_key, cancel_key, post_payload,
  cancel_payload,
}
use readyon.Store.{World, Succeeds}
use readyon.StateMachine.{is_valid_transition, assert_valid_transition}
use readyon.Balance.Repository.{get_effective_available}
use readyon.Hold.Repository as Holds
use readyon.Hold.Repository.{end_holds}
use readyon.Request.Repository.{find_by_id, set_statuses, no_extra}
use readyon.Request.Updates.{update_status_lem}
use readyon.Request.Inserts.{create_entry_ok}
use readyon.Outbox.Repository as Outbox
use readyon.Request.Approval.{posting, updated_world}
use readyon.Request.Cancellation.{compensation, released_world}
use readyon.Request.Rejection.{with_reason}
use readyon.Request.Service.{
  is_other_manager, approve_request, approve_request_tx, approve_row, reject_request,
  reject_request_tx, reject_row, cancel_request, cancel_request_tx, cancel_row,
}
use readyon.Audit

module _ (id : Text) (c : Option Text) (w : World) (r : TimeOffRequestRow)
    (found : find_by_id id w.db ≡ some r) where
  -- At the version of the request, for its manager, from a status that allows it, with its hours
  -- available without its own hold and an outbox entry that breaks no key, `approveRequest` returns.
  pub approve_request_returns :
      (m : Text)
      → is_other_manager r.manager_id m ≡ false
      → is_valid_transition r.status approved_pending_hcm ≡ true
      → r.hours_requested
        ≤ℤ get_effective_available r.employee_id r.leave_type
            (or_default r.location hq)
            (some id)
            w.db
      → Outbox.violates
          (posting id m r.version c w r)
          (updated_world id m r.version c w r found refl r.hours_requested).db
        ≡ false
      → Succeeds (approve_request id m r.version c w)
  unfolding approve_request approve_request_tx approve_row assert_valid_transition set_statuses
      Audit.log
  approve_request_returns m manages allowed enough fine =
      let v = r.version in
      let available : ltb_ℤ
            (get_effective_available r.employee_id r.leave_type (or_default r.location hq) (some id)
              w.db)
            r.hours_requested
          ≡ false =
        ground arith in
      rw
        (
          found,
          manages,
          allowed,
          ==_self v,
          available,
          update_status_lem id approved_pending_hcm v no_extra w r found refl,
          create_entry_ok id post_time_off (pto_key id (w.uuid w.drawn))
              (post_payload r.employee_id r.leave_type r.start_date r.end_date r.hours_requested)
              none (updated_world id m v c w r found refl r.hours_requested) fine,
          Succeeds,
        )
        tt

  -- At the version of the request, for its manager, with a reason and from a status that allows it,
  -- `rejectRequest` returns.
  pub reject_request_returns :
      (trim : Text → Text) (m reason : Text)
      → is_truthy reason ≡ true
      → is_truthy (trim reason) ≡ true
      → is_other_manager r.manager_id m ≡ false
      → is_valid_transition r.status rejected ≡ true
      → Succeeds (reject_request trim id m r.version reason c w)
  unfolding reject_request reject_request_tx reject_row assert_valid_transition Holds.release
      Audit.log
  reject_request_returns trim m reason given said manages allowed =
      rw
        (
          given,
          said,
          found,
          manages,
          allowed,
          ==_self r.version,
          update_status_lem id rejected r.version (with_reason trim id m r.version reason c w) w r
              found refl,
          Succeeds,
        )
        tt

  -- For the employee's own request, at its version, from a status that allows it, where an entry of
  -- the identifiers that are drawn next breaks no key of the outbox, `cancelRequest` returns.
  pub cancel_request_returns :
      (reason : Option Text)
      → is_valid_transition r.status cancelled ≡ true
      → Outbox.violates
          (compensation id r.employee_id r.version reason c w r)
          (released_world id r.employee_id r.version reason c w r found refl).db
        ≡ false
      → Succeeds (cancel_request id r.employee_id r.version reason c w)
  unfolding cancel_request cancel_request_tx cancel_row assert_valid_transition Holds.release
      end_holds Outbox.cancel_by_request_id Audit.log set_statuses
  cancel_request_returns reason allowed fine =
      let v = r.version in
      let update = update_status_lem id cancelled v no_extra w r found refl in
      elim (Bool-cases (same_status r.status approved)) [
        | inl synced ↦
            let unsent : same_status r.status approved_pending_hcm ≡ false = ground arith in
            rw
              (
                found,
                ==_self r.employee_id,
                allowed,
                ==_self v,
                update,
                unsent,
                synced,
                create_entry_ok id cancel_time_off (cancel_key id (w.uuid w.drawn))
                    (cancel_payload r.employee_id r.leave_type r.hcm_reference_id) none
                    (released_world id r.employee_id v reason c w r found refl) fine,
                Succeeds,
              )
              tt
        | inr unsynced ↦ elim (Bool-cases (same_status r.status approved_pending_hcm)) [
          | inl waits ↦
              rw
                (
                  found,
                  ==_self r.employee_id,
                  allowed,
                  ==_self v,
                  update,
                  waits,
                  unsynced,
                  Succeeds,
                )
                tt
          | inr idle ↦
              rw
                (found, ==_self r.employee_id, allowed, ==_self v, update, idle, unsynced, Succeeds)
                tt
        ]
      ]
