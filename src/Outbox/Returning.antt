-- ===== src/Outbox/Returning.antt =====
-- When the transactions of `OutboxProcessor.sweep` after a successful call return.
use readyon.Base.{◌≡◌, refl, ◌∙◌, true, false, some, ℤ, Option}
use readyon.Types.{
  Text, or_default, hq, TimeOffRequestRow, BalanceProjectionRow, IntegrationOutboxRow,
  approved_pending_hcm, approved, same_status,
}
use readyon.Store.{World, Succeeds, now_iso, run_in_transaction}
use readyon.Balance.Repository.{find_by_employee_and_type, deduct, apply_deduction}
use readyon.Balance.Held.{same_projection}
use readyon.Balance.Updates.{breaks, update_projection_ok}
use readyon.Hold.Repository as Holds
use readyon.Hold.Repository.{end_holds}
use readyon.Request.Repository.{find_by_id, set_statuses}
use readyon.Request.Updates.{update_status_lem}
use readyon.Outbox.Repository.{mark_completed}
use readyon.Outbox.Processor.{settle_post, confirm_post, deduct_if_known, settle_cancel}
use readyon.Outbox.Settlement.{with_reference, converted_world}
use readyon.Outbox.Refund.{refund}
use readyon.Hcm.Port.{HcmPostTimeOffResponse, HcmCancelTimeOffResponse}
use readyon.Audit

module _ (entry : IntegrationOutboxRow) (e t : Text) (w : World) (r : TimeOffRequestRow)
    (p : BalanceProjectionRow)
    (known : find_by_employee_and_type e t (or_default r.location hq) w.db ≡ some p) where
  -- For a request that still waits, whose key has a projection that stays within its constraints
  -- when the hours are deducted, the transaction after an accepted deduction returns.
  pub settle_post_returns :
      (hours : ℤ) (answer : HcmPostTimeOffResponse)
      → find_by_id entry.request_id w.db ≡ some r
      → same_status r.status approved_pending_hcm ≡ true
      → breaks e t (or_default r.location hq) p.version (deduct hours (now_iso w)) w.db ≡ false
      → Succeeds (run_in_transaction (settle_post entry e t hours answer) w)
  unfolding settle_post confirm_post Holds.convert mark_completed Audit.log deduct_if_known
      apply_deduction set_statuses end_holds
  settle_post_returns hours answer found waits fine =
      let l = or_default r.location hq in
      let w1 = converted_world entry e t hours answer w r in
      let same = same_projection e t l w.db w1.db refl ∙ known in
      rw
        (
          found,
          waits,
          update_status_lem entry.request_id approved r.version
              (with_reference entry e t hours answer w) w r found refl,
          same,
          update_projection_ok e t l (deduct hours (now_iso w)) (λ q. refl) w1 p same fine,
          Succeeds,
        )
        tt

  -- For a request whose key has a projection that stays within its constraints when the hours are
  -- given back, the transaction after an accepted cancellation returns.
  pub settle_cancel_returns :
      (reference : Option Text) (answer : HcmCancelTimeOffResponse)
      → breaks e t (or_default r.location hq) p.version (refund entry e t reference answer r w) w.db
        ≡ false
      → Succeeds (run_in_transaction (settle_cancel entry e t reference answer r) w)
  unfolding settle_cancel deduct_if_known apply_deduction mark_completed Audit.log
  settle_cancel_returns reference answer fine =
      let l = or_default r.location hq in
      rw
        (
          known,
          update_projection_ok e t l (refund entry e t reference answer r w) (λ q. refl) w p known
              fine,
          Succeeds,
        )
        tt
