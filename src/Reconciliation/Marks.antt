-- ===== src/Reconciliation/Marks.antt =====
-- `ReconciliationService.flagActiveHoldsForReconciliation`.
use readyon.Base.{refl, [], ◌∷◌, List, arith, Bool-cases, Option-cases, inl, inr}
use readyon.Types.{Text, BalanceHoldRow, same_status, reconciliation_required}
use readyon.Store.{World, Ensures, now_iso}
use readyon.Store.Returns.{and_then, ensure_more}
use readyon.Hold.Repository.{find_active_by_employee_and_type}
use readyon.Request.Repository.{find_by_id, set_status, set_statuses, no_extra}
use readyon.Request.Updates.{update_status_lem, find_by_id-set_statuses}
use readyon.Batch.Flags.{Framed, Marked, IsFlagged, FlagsAll, FlagsAll-step, review_after}
use readyon.Reconciliation.{mark_request, mark_requests, flag_active_holds}

mark_request-Marked :
    (id : Text) (w : World)
    → Ensures
        (λ _ w'. Framed w w' × Marked id w w' × IsFlagged id w'.db)
        (mark_request id (find_by_id id w.db) w)
unfolding mark_request set_statuses
mark_request-Marked id w = elim (Option-cases (find_by_id id w.db)) [
  | inl gone ↦ rw (gone, Ensures) ((refl, refl, refl, refl, refl), inl refl, rw gone tt)
  | inr (r, found) ↦ elim (Bool-cases (same_status r.status reconciliation_required)) [
    | inl marked ↦
        rw (found, marked, Ensures)
          ((refl, refl, refl, refl, refl), inl refl, rw found (ground arith))
    | inr unmarked ↦
        rw
          (
            found,
            unmarked,
            update_status_lem id reconciliation_required r.version no_extra w r found refl,
            Ensures,
          )
          (
            (refl, refl, refl, refl, refl),
            inr (r.version, refl),
            review_after id
                (set_statuses id reconciliation_required r.version no_extra (now_iso w) w.db) _
                (set_status reconciliation_required no_extra (now_iso w) r) refl
                (find_by_id-set_statuses id reconciliation_required r.version no_extra w r found
                  refl)
                refl,
          )
  ]
]

mark_requests-FlagsAll :
    (holds : List BalanceHoldRow) (w : World)
    → Ensures (λ _. FlagsAll holds w) (mark_requests holds w)
unfolding mark_requests
mark_requests-FlagsAll [] w = ((refl, refl, refl, refl, refl), tt, λ j. inl refl)
mark_requests-FlagsAll (h ∷ holds) w =
    and_then (λ _ w1. Framed w w1 × Marked h.request_id w w1 × IsFlagged h.request_id w1.db)
      (λ _. FlagsAll (h ∷ holds) w) (mark_request h.request_id (find_by_id h.request_id w.db) w)
      (λ _. mark_requests holds) (mark_request-Marked h.request_id w)
      (λ _ w1 (framed, marked, flagged).
        ensure_more (λ _. FlagsAll holds w1) (λ _. FlagsAll (h ∷ holds) w) (mark_requests holds w1)
          (mark_requests-FlagsAll holds w1)
          (λ _ w2 rest. FlagsAll-step h holds w w1 w2 framed marked flagged rest))

pub flag_active_holds-FlagsAll :
    (e t l : Text) (w : World)
    → Ensures
        (λ _. FlagsAll (find_active_by_employee_and_type e t l w.db) w)
        (flag_active_holds e t l w)
unfolding flag_active_holds
flag_active_holds-FlagsAll e t l w = mark_requests-FlagsAll _ w
