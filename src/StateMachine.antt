-- ===== src/StateMachine.antt =====
-- src/common/utils/state-machine.ts
pub mod Reach
use readyon.Base.{Bool, false, not, ◌||◌, List, [], ◌∷◌, ⊤}
use readyon.Types.{
  Text, RequestStatus, same_status, pending_approval, approved_pending_hcm, approved, rejected,
  cancelled, failed_hcm, reconciliation_required,
}
use readyon.Errors.{invalid_state_transition_exception}
use readyon.Store.{M, raise_if}

abbrev pub valid_transitions : RequestStatus → List RequestStatus
valid_transitions pending_approval = approved_pending_hcm ∷ rejected ∷ cancelled ∷ []
valid_transitions approved_pending_hcm = approved ∷ failed_hcm ∷ cancelled ∷ []
valid_transitions approved = reconciliation_required ∷ cancelled ∷ []
valid_transitions rejected = []
valid_transitions cancelled = []
valid_transitions failed_hcm = reconciliation_required ∷ []
valid_transitions reconciliation_required = approved ∷ cancelled ∷ []

abbrev pub includes : List RequestStatus → RequestStatus → Bool
includes [] s = false
includes (x ∷ xs) s = same_status x s || includes xs s

unfoldable pub is_valid_transition : RequestStatus → RequestStatus → Bool
is_valid_transition from to = includes (valid_transitions from) to

unfoldable pub assert_valid_transition : RequestStatus → RequestStatus → Text → M ⊤
assert_valid_transition from to request_id =
    raise_if (not (is_valid_transition from to))
      (invalid_state_transition_exception from to request_id)

unfoldable pub is_terminal_status : RequestStatus → Bool
is_terminal_status s = includes (approved ∷ rejected ∷ cancelled ∷ []) s

unfoldable pub is_hold_active_status : RequestStatus → Bool
is_hold_active_status s = includes (pending_approval ∷ approved_pending_hcm ∷ []) s
