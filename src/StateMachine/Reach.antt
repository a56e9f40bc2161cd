-- ===== src/StateMachine/Reach.antt =====
-- What a request's life can look like, by the transitions of src/common/utils/state-machine.ts.
use readyon.Base.{◌≡◌, refl, true, false, ◌⊎◌, arith}
use readyon.Types.{
  RequestStatus, pending_approval, approved_pending_hcm, approved, rejected, cancelled, failed_hcm,
  reconciliation_required,
}
use readyon.StateMachine.{is_valid_transition, is_terminal_status, is_hold_active_status}

-- The statuses that can follow a status.
pub data Reach (s : RequestStatus) : RequestStatus → Type 0 where
  here : Reach s s
  next : {t u : RequestStatus} → Reach s t → is_valid_transition t u ≡ true → Reach s u

leaves_for_good :
    (s t : RequestStatus)
    → is_valid_transition s t ≡ true
    → is_hold_active_status s ≡ false
    → is_hold_active_status t ≡ false
unfolding is_valid_transition is_hold_active_status
leaves_for_good s t h e = ground arith

-- A request that has left the statuses in which its hold is active never comes back to them.
pub Reach-hold_inactive :
    {s t : RequestStatus}
    → Reach s t
    → is_hold_active_status s ≡ false
    → is_hold_active_status t ≡ false
Reach-hold_inactive here h = h
Reach-hold_inactive (next {t} {u} r step) h = leaves_for_good t u step (Reach-hold_inactive r h)

-- Of the statuses that count as terminal, only an approved one has a way out: to reconciliation, or
-- to a cancellation.
pub terminal_exits :
    (s t : RequestStatus)
    → is_terminal_status s ≡ true
    → is_valid_transition s t ≡ true
    → (s ≡ approved) × ((t ≡ reconciliation_required) ⊎ (t ≡ cancelled))
unfolding is_valid_transition is_terminal_status
terminal_exits s t h e = ground arith

-- From every status that is neither rejected nor cancelled, a cancellation can be reached.
pub Reach-cancelled : (s : RequestStatus) → is_terminal_status s ≡ false → Reach s cancelled
unfolding is_terminal_status is_valid_transition
Reach-cancelled pending_approval h = next here refl
Reach-cancelled approved_pending_hcm h = next here refl
Reach-cancelled failed_hcm h = next {t = reconciliation_required} (next here refl) refl
Reach-cancelled reconciliation_required h = next here refl
Reach-cancelled approved h = cc
Reach-cancelled rejected h = cc
Reach-cancelled cancelled h = cc
