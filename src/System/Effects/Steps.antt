-- ===== src/System/Effects/Steps.antt =====
-- The effect of each step.
use readyon.Base.{◌≡◌, refl, ⊤}
use readyon.Types.{Text, cancelled, rejected, released}
use readyon.Errors.{AppError}
use readyon.Store.{World, M, ok, run_in_transaction}
use readyon.Request.Repository.{no_extra}
use readyon.Request.Service.{create_request, cancel_request, approve_request, reject_request}
use readyon.Request.Creation.{Granted, create_request-IsAtomic}
use readyon.Request.Cancellation.{Revoked, cancel_request-IsAtomic}
use readyon.Request.Approval.{Approved, approve_request-IsAtomic}
use readyon.Request.Rejection.{Rejected, with_reason, reject_request-IsAtomic}
use readyon.Outbox.Repository.{claim_pending_entries, mark_failed}
use readyon.Outbox.Processor.{settle_post, settle_cancel, on_error}
use readyon.Outbox.Settlement.{settle_post-IsAtomic}
use readyon.Outbox.Refund.{Refunded, settle_cancel-IsAtomic}
use readyon.Outbox.Failures.{Handled, on_error-Handled}
use readyon.Hcm.Port.{HcmAdapterPort}
use readyon.Batch.Sync.{process_item}
use readyon.Batch.Items.{Applied, process_item-IsAtomic}
use readyon.Integration.{update_balance_tx}
use readyon.Integration.Update as Single
use readyon.Reconciliation.{reconcile_local}
use readyon.Reconciliation.Results.{Reconciled, reconcile_local-IsAtomic}
use readyon.System.{
  Step, creates, cancels, approves, rejects, claims, confirms, refunds, fails, drops, syncs,
  updates, reconciles, resets, elsewhere,
}
use readyon.Database.{reset_tables}
use readyon.System.Rules.{after_atomic, after_ensured}
use readyon.System.Holds.{is_holding}
use readyon.System.Effects.{
  nothing, closes, moves, makes, clears, no_write, empties, Effect, no_effect,
}
use readyon.System.Effects.Operations.{confirmed, refunded, handled, synced, reconciled, single}

module _ (trim : Text → Text) (port : HcmAdapterPort) (message : AppError → Text) (sync_mock : M ⊤)
    (silent : (w : World) → sync_mock w ≡ ok tt w) where
  -- Every step has one of these effects, whatever its outcome.
  pub Step-Effect : (w w' : World) → Step trim port message sync_mock w w' → Effect w w'.db
  unfolding mark_failed claim_pending_entries reset_tables is_holding
  Step-Effect w _ (creates e dto c) =
      after_atomic (Effect w) w (Granted e dto c w) (create_request e dto c w)
        (create_request-IsAtomic e dto c w)
        (λ r w' (_, _, _, _, _, (rs, hs, ps, _, _, _, _, _, fresh)).
          (makes e dto fresh rs hs, no_write ps))
        (no_effect w w.db refl)
  Step-Effect w _ (cancels id e v reason c) =
      after_atomic (Effect w) w (Revoked id e v reason c w) (cancel_request id e v reason c w)
        (cancel_request-IsAtomic id e v reason c w)
        (λ u w' (r, found, _, same, _, _, (rs, hs, ps, _, _)).
          (closes id cancelled released v no_extra r found same refl refl rs hs, no_write ps))
        (no_effect w w.db refl)
  Step-Effect w _ (approves id m v c) =
      after_atomic (Effect w) w (Approved id m v c w) (approve_request id m v c w)
        (approve_request-IsAtomic id m v c w)
        (λ u w' (r, found, _, same, legal, _, _, (rs, hs, ps, _, _)).
          (moves id v r found same legal rs hs, no_write ps))
        (no_effect w w.db refl)
  Step-Effect w _ (rejects id m v reason c) =
      after_atomic (Effect w) w (Rejected trim id m v reason c w)
        (reject_request trim id m v reason c w) (reject_request-IsAtomic trim id m v reason c w)
        (λ u w' (r, _, found, _, same, _, _, (rs, hs, ps, _, _)). (
          closes id rejected released v (with_reason trim id m v reason c w) r found same refl refl
              rs hs,
          no_write ps,
        ))
        (no_effect w w.db refl)
  Step-Effect w _ (claims limit) = (nothing refl refl, no_write refl)
  Step-Effect w _ (confirms entry e t hours answer) =
      after_atomic (Effect w) w _ (run_in_transaction (settle_post entry e t hours answer) w)
        (settle_post-IsAtomic entry e t hours answer w)
        (λ _ w' how. confirmed w w' entry e t hours answer how) (no_effect w w.db refl)
  Step-Effect w _ (refunds entry e t reference answer r) =
      after_atomic (Effect w) w (λ _. Refunded entry e t reference answer r w)
        (run_in_transaction (settle_cancel entry e t reference answer r) w)
        (settle_cancel-IsAtomic entry e t reference answer r w)
        (λ _ w' how. refunded w w' entry e t reference answer r how) (no_effect w w.db refl)
  Step-Effect w _ (fails entry e) =
      after_ensured (Effect w) w (λ _. Handled entry w) (on_error port message entry e w)
        (on_error-Handled port message entry e w) (λ _ w' how. handled w w' entry how)
  Step-Effect w _ (drops id text category) = (nothing refl refl, no_write refl)
  Step-Effect w _ (syncs item) =
      after_atomic (Effect w) w (Applied item w) (process_item item w)
        (process_item-IsAtomic item w) (λ r w' how. synced w w' item r how) (no_effect w w.db refl)
  Step-Effect w _ (updates dto c) =
      after_atomic (Effect w) w (Single.Accepted sync_mock dto c w)
        (run_in_transaction (update_balance_tx sync_mock dto c) w)
        (Single.update_balance-IsAtomic sync_mock dto c w silent)
        (λ _ w' (written, rs, hs, _, _, _, _).
          (nothing rs hs, single w w' sync_mock dto c _ written))
        (no_effect w w.db refl)
  Step-Effect w _ (reconciles e t l b threshold p found) =
      after_atomic (Effect w) w (Reconciled e t l b threshold p w)
        (reconcile_local e t l b threshold p w)
        (reconcile_local-IsAtomic e t l b threshold p w found)
        (λ r w' how. reconciled w w' e t l b threshold p r how) (no_effect w w.db refl)
  Step-Effect w _ resets = (clears refl, empties refl)
  Step-Effect w w' (elsewhere _ rs hs ps) = (nothing rs hs, no_write ps)
